-- ===== src/Samples/BrokerExamples.antt =====
-- The theorems on crates/jkr-server/src/broker.rs at small inputs.
use tkr.Prelude.{ℕ, ◌≡◌, ◌⊎◌, refl, true, false, none, some, List, [], ◌∷◌, codes, All, arith}
use tkr.Mesh.Crypto
use tkr.Mesh.Hello
use tkr.Broker.State.{MemberRecord, new_broker, lookup, route}
use tkr.Broker.Join.{
  JoinRequest, JoinReply, JoinError, IsEntitled, request_with, handle_join, handle_join_lem,
  handle_join-self_issued,
}
use tkr.Broker.Session.{Event, Frame, Priority, World, new_world, session_of, handle, run}
use tkr.Broker.Session.Sound.{HasOrigin}
use tkr.Broker.Session.Origin.{SomeOf, Vouches, close-unreachable, run-HasOrigin}
use tkr.Samples.{toy_crypto, toy_crypto_laws}

abbrev alice : List ℕ
alice = 1 ∷ []

abbrev bob : List ℕ
bob = 2 ∷ []

abbrev body : JoinRequest
body = request_with toy_crypto toy_crypto_laws false true (codes "mesh") (codes "token") 2000 1000

handle_join_example :
    let (reply, broker') = handle_join toy_crypto (codes "m1") new_broker body 1500 1500 in
    (IsEntitled toy_crypto body 1500 1500
      × ((r : MemberRecord) × (reply ≡ JoinReply.joined r.member_id)
          × (lookup body.invite_payload.mesh_id body.address broker' ≡ some r)))
    ⊎ ((¬ IsEntitled toy_crypto body 1500 1500)
        × ((e : JoinError) × (reply ≡ JoinReply.refused e))
        × (broker' ≡ new_broker))
handle_join_example = handle_join_lem toy_crypto (codes "m1") new_broker body 1500 1500

handle_join-self_issued_example :
    let (reply, broker') = handle_join toy_crypto (codes "m1") new_broker body 1500 1500 in
    (r : MemberRecord) × (reply ≡ JoinReply.joined r.member_id)
    × (lookup (codes "mesh") (tkr.Mesh.Crypto.address toy_crypto true) broker' ≡ some r)
handle_join-self_issued_example =
    handle_join-self_issued toy_crypto toy_crypto_laws false true (codes "m1") (codes "mesh")
      (codes "token") new_broker 2000 1000 1500 1500 (omega arith) (omega arith)

abbrev member : MemberRecord
member = record {
  mesh_id = codes "mesh";
  member_id = codes "m1";
  address = alice;
  display_name = none;
}

-- Two connections of one member; the channel is that of the newer one.
abbrev two_sessions : World
two_sessions = record {
  broker = record { members = (codes "mesh", (alice, member) ∷ []) ∷ []; peers = (alice, 8) ∷ [] };
  sessions = (8, member) ∷ (7, member) ∷ [];
  sent = [];
}

older : session_of 7 two_sessions.sessions ≡ some member
unfolding session_of
older = refl

close-unreachable_example :
    route alice (handle toy_crypto (Event.close 7) two_sessions).broker ≡ none
close-unreachable_example = close-unreachable toy_crypto 7 member two_sessions older

abbrev events : List Event
events =
    Event.join (codes "m1") body 1500 1500
    ∷ Event.first 7
        (Frame.hello (tkr.Mesh.Hello.new toy_crypto true (codes "mesh") (codes "s") 1000)) 1500
    ∷ Event.next 7 (
        Frame.send (record {
          id = codes "1";
          to = alice;
          priority = Priority.next;
          envelope = record { eph_pub = []; ciphertext = codes "c" };
        }))
    ∷ []

run-HasOrigin_example :
    All
      (HasOrigin (λ a. SomeOf (Vouches toy_crypto a) events))
      (run toy_crypto events new_world).sent
run-HasOrigin_example = run-HasOrigin toy_crypto events
