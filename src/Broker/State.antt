-- ===== src/Broker/State.antt =====
-- `BrokerState` of crates/jkr-server/src/broker.rs. The random member id is an argument, and a peer's
-- channel is known by a number. `Mutex` makes each of these operations one step.
use tkr.Prelude.{
  ℕ, ◌≡◌, refl, ◌⊎◌, inl, inr, ◌&&◌, true, false, Option, none, some, [], Text, text_eq,
  text_eq_iff, arith, Bool-cases, sym, ◌∙◌, ap, subst,
}
use tkr.Table.{Table, get, insert, remove, get-insert, get-insert_other}
use tkr.Mesh.Bytes.{Bytes}

pub record MemberRecord : Type 0 where
  pub mesh_id : Text
  pub member_id : Text
  pub address : Bytes
  pub display_name : Option Text

-- The writer channel of a connection.
abbrev pub Sender : Type 0
Sender = ℕ

pub record BrokerState : Type 0 where
  pub members : Table (Table MemberRecord)
  pub peers : Table Sender

abbrev pub new_broker : BrokerState
new_broker = record { members = []; peers = [] }

-- `entry(mesh_id).or_default()`
abbrev or_default : Option (Table MemberRecord) → Table MemberRecord
or_default none = []
or_default (some mesh) = mesh

unfoldable pub members_of : Text → BrokerState → Table MemberRecord
unfolding get
members_of mesh_id broker = or_default (get mesh_id broker.members)

abbrev lookup_in : Bytes → Option (Table MemberRecord) → Option MemberRecord
lookup_in address none = none
lookup_in address (some mesh) = get address mesh

unfoldable pub lookup : Text → Bytes → BrokerState → Option MemberRecord
lookup mesh_id address broker = lookup_in address (get mesh_id broker.members)

-- The record that is there is kept.
abbrev enrolled :
    MemberRecord
    → Table MemberRecord
    → BrokerState
    → Option MemberRecord
    → MemberRecord × BrokerState
enrolled new_record mesh broker (some existing) =
    (existing, record broker { members = insert new_record.mesh_id mesh broker.members })
enrolled new_record mesh broker none = (
  new_record,
  record broker {
    members = insert new_record.mesh_id (insert new_record.address new_record mesh) broker.members;
  },
)

unfoldable pub enroll : Text → Text → Bytes → Option Text → BrokerState → MemberRecord × BrokerState
unfolding members_of
enroll fresh_id mesh_id address display_name broker =
    let mesh = members_of mesh_id broker in
    let new_record : MemberRecord = record {
      mesh_id = mesh_id;
      member_id = fresh_id;
      address = address;
      display_name = display_name;
    } in
    enrolled new_record mesh broker (get address mesh)

-- The previous sender comes back.
unfoldable pub attach_peer : Bytes → Sender → BrokerState → Option Sender × BrokerState
unfolding get insert
attach_peer address tx broker =
    (get address broker.peers, record broker { peers = insert address tx broker.peers })

unfoldable pub detach_peer : Bytes → BrokerState → BrokerState
unfolding remove
detach_peer address broker = record broker { peers = remove address broker.peers }

unfoldable pub route : Bytes → BrokerState → Option Sender
unfolding get
route address broker = get address broker.peers

-- A lookup is one in the table of the mesh.
lookup-get :
    (mesh_id : Text) (address : Bytes) (broker : BrokerState)
    → lookup mesh_id address broker ≡ get address (members_of mesh_id broker)
unfolding lookup members_of
lookup-get mesh_id address broker = go (get mesh_id broker.members)
  where
    go : (o : Option (Table MemberRecord)) → lookup_in address o ≡ get address (or_default o)
    go none = unfold get in refl
    go (some mesh) = refl

-- A lookup after the table of `mesh_id` was put: in that table, or in the state before.
lookup-insert :
    (mesh_id : Text) (address : Bytes) (mesh : Table MemberRecord) (broker : BrokerState)
    → lookup mesh_id address (record broker { members = insert mesh_id mesh broker.members })
      ≡ get address mesh
unfolding lookup
lookup-insert mesh_id address mesh broker =
    ap (lookup_in address) (get-insert mesh_id mesh broker.members)

lookup-insert_other :
    (mesh_id other : Text) (address : Bytes) (mesh : Table MemberRecord) (broker : BrokerState)
    → text_eq mesh_id other ≡ false
    → lookup other address (record broker { members = insert mesh_id mesh broker.members })
      ≡ lookup other address broker
unfolding lookup
lookup-insert_other mesh_id other address mesh broker h =
    ap (lookup_in address) (get-insert_other mesh_id other mesh broker.members h)

-- An enrolment gives back the record that is there, or else a new one under the fresh id; from then
-- on a lookup finds that record.
pub lookup-enroll :
    (fresh_id mesh_id : Text) (address : Bytes) (name : Option Text) (broker : BrokerState)
    → let (record', broker') = enroll fresh_id mesh_id address name broker in
      (lookup mesh_id address broker' ≡ some record')
      × ((lookup mesh_id address broker ≡ some record')
          ⊎ ((lookup mesh_id address broker ≡ none)
              × (record' ≡ record {
                mesh_id = mesh_id;
                member_id = fresh_id;
                address = address;
                display_name = name;
              })))
unfolding enroll
lookup-enroll fresh_id mesh_id address name broker = go (get address mesh) refl
  where
    mesh : Table MemberRecord
    mesh = members_of mesh_id broker

    new_record : MemberRecord
    new_record = record {
      mesh_id = mesh_id;
      member_id = fresh_id;
      address = address;
      display_name = name;
    }

    go :
        (o : Option MemberRecord)
        → get address mesh ≡ o
        → let (record', broker') = enrolled new_record mesh broker o in
          (lookup mesh_id address broker' ≡ some record')
          × ((lookup mesh_id address broker ≡ some record')
              ⊎ ((lookup mesh_id address broker ≡ none) × (record' ≡ new_record)))
    go (some existing) e =
        (lookup-insert mesh_id address mesh broker ∙ e, inl (lookup-get mesh_id address broker ∙ e))
    go none e = (
      lookup-insert mesh_id address (insert address new_record mesh) broker
          ∙ get-insert address new_record mesh,
      inr (lookup-get mesh_id address broker ∙ e, refl),
    )

-- An enrolment changes no lookup of another mesh or another address.
pub lookup-enroll_other :
    (fresh_id mesh_id other : Text) (address other_address : Bytes) (name : Option Text)
    (broker : BrokerState)
    → (text_eq mesh_id other && text_eq address other_address) ≡ false
    → lookup other other_address (enroll fresh_id mesh_id address name broker).1
      ≡ lookup other other_address broker
unfolding enroll
lookup-enroll_other fresh_id mesh_id other address other_address name broker h =
    go (get address mesh) (Bool-cases (text_eq mesh_id other))
  where
    mesh : Table MemberRecord
    mesh = members_of mesh_id broker

    new_record : MemberRecord
    new_record = record {
      mesh_id = mesh_id;
      member_id = fresh_id;
      address = address;
      display_name = name;
    }

    go :
        (o : Option MemberRecord)
        → (text_eq mesh_id other ≡ true) ⊎ (text_eq mesh_id other ≡ false)
        → lookup other other_address (enrolled new_record mesh broker o).1
          ≡ lookup other other_address broker
    go (some existing) (inr elsewhere) =
        lookup-insert_other mesh_id other other_address mesh broker elsewhere
    go none (inr elsewhere) =
        lookup-insert_other mesh_id other other_address (insert address new_record mesh) broker
          elsewhere
    go (some existing) (inl here) =
        subst
          (λ m.
            lookup m other_address (enrolled new_record mesh broker (some existing)).1
            ≡ lookup m other_address broker)
          ((text_eq_iff mesh_id other).0 here)
          (lookup-insert mesh_id other_address mesh broker
            ∙ sym (lookup-get mesh_id other_address broker))
    go none (inl here) =
        subst
          (λ m.
            lookup m other_address (enrolled new_record mesh broker none).1
            ≡ lookup m other_address broker)
          ((text_eq_iff mesh_id other).0 here)
          (lookup-insert mesh_id other_address (insert address new_record mesh) broker
            ∙ get-insert_other address other_address new_record mesh (ground (arith, h))
            ∙ sym (lookup-get mesh_id other_address broker))
