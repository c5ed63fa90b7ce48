-- ===== src/Broker/Session/Sound.antt =====
-- An invariant of the sessions of crates/jkr-server/src/broker.rs, and that each of their operations
-- keeps it.
use tkr.Prelude.{
  ◌≡◌, refl, inl, inr, Option, none, some, List, [], ◌∷◌, Text, ◌==◌, All, All-append, arith,
  Bool-cases, Option-cases, sym, subst, text_eq, text_eq_iff, ◌&&◌, ◌∙◌, ap,
}
use tkr.Table.{Table, get, insert}
use tkr.Mesh.Bytes.{Bytes, Result, ok, err, Checked, checked}
use tkr.Mesh.Hello.{Hello}
use tkr.Broker.State.{
  BrokerState, new_broker, MemberRecord, Sender, lookup, enroll, lookup-enroll, lookup-enroll_other,
  attach_peer, detach_peer, route,
}
use tkr.Broker.Session.{
  World, Frame, send_to, send_error, admit, check_hello, session_of, without, forward,
  close_session,
}

-- Records are filed under their own address.
unfoldable pub IsFiled : BrokerState → Type 0
IsFiled broker =
    (mesh_id : Text) (a : Bytes) (r : MemberRecord)
    → lookup mesh_id a broker ≡ some r
    → r.address ≡ a

-- The frame names an origin that satisfies `P`, if it is a push.
unfoldable pub HasOrigin : (Bytes → Type 0) → Sender × Frame → Type 0
HasOrigin P (_, Frame.push p) = P p.from
HasOrigin P _ = Unit

-- Sessions and pushed frames belong to addresses that satisfy `P`.
unfoldable pub IsSound : (Bytes → Type 0) → World → Type 0
IsSound P w = IsFiled w.broker × All (λ s. P (s.1).address) w.sessions × All (HasOrigin P) w.sent

IsFiled-enroll_here :
    (fresh_id mesh_id : Text) (address : Bytes) (name : Option Text) (broker : BrokerState)
    (r : MemberRecord)
    → IsFiled broker
    → lookup mesh_id address (enroll fresh_id mesh_id address name broker).1 ≡ some r
    → r.address ≡ address
unfolding IsFiled
IsFiled-enroll_here fresh_id mesh_id address name broker r filed found =
    let (record', _) = enroll fresh_id mesh_id address name broker in
    let (found', origin) = lookup-enroll fresh_id mesh_id address name broker in
    let same : r ≡ record' = ground (arith, sym found ∙ found') in
    let filed' : record'.address ≡ address = elim origin [
      | inl old ↦ filed mesh_id address record' old
      | inr (_, new) ↦ ap (λ (m : MemberRecord). m.address) new
    ] in
    ap (λ (m : MemberRecord). m.address) same ∙ filed'

pub IsFiled-enroll :
    (fresh_id mesh_id : Text) (address : Bytes) (name : Option Text) (broker : BrokerState)
    → IsFiled broker
    → IsFiled (enroll fresh_id mesh_id address name broker).1
unfolding IsFiled
IsFiled-enroll fresh_id mesh_id address name broker filed other a r found =
    elim (Bool-cases (text_eq mesh_id other && text_eq address a)) [
      | inr elsewhere ↦
          filed other a r (
            sym (lookup-enroll_other fresh_id mesh_id other address a name broker elsewhere)
            ∙ found)
      | inl here ↦
          let same_mesh : other ≡ mesh_id = ground (arith, here, text_eq_iff mesh_id other) in
          let same : a ≡ address = ground (arith, here, text_eq_iff address a) in
          IsFiled-enroll_here fresh_id mesh_id address name broker r filed (
            subst (λ m. lookup m address (enroll fresh_id mesh_id address name broker).1 ≡ some r)
              same_mesh
              (subst (λ b. lookup other b (enroll fresh_id mesh_id address name broker).1 ≡ some r)
                same found))
          ∙ sym same
    ]

pub IsFiled-new : IsFiled new_broker
unfolding IsFiled lookup get
IsFiled-new mesh_id a r found = ground (arith, found)

-- Who is connected does not matter to the registry.
pub IsFiled-peers :
    (broker : BrokerState) (peers : Table Sender)
    → IsFiled broker
    → IsFiled (record broker { peers = peers })
unfolding IsFiled lookup
IsFiled-peers broker peers filed = filed

pub session_of-All :
    (P : Bytes → Type 0) (tx : Sender) (sessions : List (Sender × MemberRecord))
    (member : MemberRecord)
    → All (λ s. P (s.1).address) sessions
    → session_of tx sessions ≡ some member
    → P member.address
unfolding session_of
session_of-All P tx [] member all h = ground (arith, h)
session_of-All P tx ((t, m) ∷ sessions) member all h = elim (Bool-cases (t == tx)) [
  | inl this ↦
      let e : m ≡ member = ground (arith, h, this) in
      subst (λ (x : MemberRecord). P x.address) e all.0
  | inr other ↦ session_of-All P tx sessions member all.1 (ground (arith, h, other))
]

without-All :
    (P : Bytes → Type 0) (tx : Sender) (sessions : List (Sender × MemberRecord))
    → All (λ s. P (s.1).address) sessions
    → All (λ s. P (s.1).address) (without tx sessions)
unfolding without
without-All P tx [] all = tt
without-All P tx ((t, m) ∷ sessions) all = elim (Bool-cases (t == tx)) [
  | inl this ↦ rw this (without-All P tx sessions all.1)
  | inr other ↦ rw other (all.0, without-All P tx sessions all.1)
]

IsSound-send_to :
    (P : Bytes → Type 0) (tx : Sender) (frame : Frame) (w : World)
    → HasOrigin P (tx, frame)
    → IsSound P w
    → IsSound P (send_to tx frame w)
unfolding IsSound send_to
IsSound-send_to P tx frame w origin (filed, sessions, sent) =
    (filed, sessions, All-append (HasOrigin P) w.sent ((tx, frame) ∷ []) sent (origin, tt))

pub IsSound-send_error :
    (P : Bytes → Type 0) (tx : Sender) (code message : Text) (id : Option Text) (w : World)
    → IsSound P w
    → IsSound P (send_error tx code message id w)
unfolding send_error
IsSound-send_error P tx code message id w sound =
    IsSound-send_to P tx _ w (unfold HasOrigin in tt) sound

pub IsSound-check_hello :
    (P : Bytes → Type 0) (tx : Sender) (h : Hello) (r : Result Checked) (w : World)
    → (r ≡ ok checked → P h.address)
    → IsSound P w
    → IsSound P (check_hello tx h r w)
unfolding check_hello IsSound IsFiled admit send_to attach_peer
IsSound-check_hello P tx h (err e) w vouched sound = IsSound-send_error P tx _ _ _ w sound
IsSound-check_hello P tx h (ok checked) w vouched sound =
    go (lookup h.mesh_id h.address w.broker) refl
  where
    go :
        (o : Option MemberRecord)
        → lookup h.mesh_id h.address w.broker ≡ o
        → IsSound P (admit tx h o w)
    go none e = IsSound-send_error P tx _ _ _ w sound
    go (some member) e =
        let (filed, sessions, sent) : IsSound P w = sound in
        let own : member.address ≡ h.address = filed h.mesh_id h.address member e in
        (
          IsFiled-peers w.broker (insert member.address tx w.broker.peers) filed,
          (subst P (sym own) (vouched refl), sessions),
          All-append (HasOrigin P) w.sent ((tx, Frame.ack h.session_id) ∷ []) sent
              (unfold HasOrigin in tt, tt),
        )

pub IsSound-forward :
    (P : Bytes → Type 0) (member : MemberRecord) (frame : Frame) (w : World)
    → P member.address
    → IsSound P w
    → IsSound P (forward member frame w)
unfolding forward
IsSound-forward P member (Frame.hello h) w from sound = sound
IsSound-forward P member (Frame.ack id) w from sound = sound
IsSound-forward P member (Frame.push p) w from sound = sound
IsSound-forward P member (Frame.error e) w from sound = sound
IsSound-forward P member (Frame.send s) w from sound = elim (Option-cases (route s.to w.broker)) [
  | inl offline ↦ rw (forward, offline) sound
  | inr (target, online) ↦
      rw (forward, online) (IsSound-send_to P target _ w (unfold HasOrigin in from) sound)
]

pub IsSound-close_session :
    (P : Bytes → Type 0) (tx : Sender) (member : MemberRecord) (w : World)
    → IsSound P w
    → IsSound P (close_session tx member w)
unfolding close_session IsSound detach_peer
IsSound-close_session P tx member w (filed, sessions, sent) =
    (IsFiled-peers w.broker _ filed, without-All P tx w.sessions sessions, sent)
