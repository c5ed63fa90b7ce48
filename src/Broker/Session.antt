-- ===== src/Broker/Session.antt =====
-- `run_ws_session` of crates/jkr-server/src/broker.rs, cut into what it does on each event, so that
-- sessions interleave. What a connection is sent is a list of frames with the number of the
-- connection. The frames are taken as parsed; the queue of 128 frames per connection, frames that
-- fail to reach it, and the state of the socket are left out.
pub mod Sound
pub mod Origin
use tkr.Prelude.{
  ℕ, Bool, true, false, Option, none, some, List, [], ◌∷◌, ◌++◌, Text, codes, ◌==◌, if◌then◌else◌,
}
use tkr.Mesh.Bytes.{Bytes, Error, Result, ok, err, Checked, checked}
use tkr.Mesh.Crypto.{CryptoApi}
use tkr.Mesh.Hello
use tkr.Mesh.Hello.{Hello, hello_max_skew_ms}
use tkr.Broker.State.{
  BrokerState, new_broker, MemberRecord, Sender, lookup, attach_peer, detach_peer, route,
}
use tkr.Broker.Join.{JoinRequest, handle_join}

pub record Envelope : Type 0 where
  pub eph_pub : Text
  pub ciphertext : Text

pub data Priority : Type 0 where
  now next low : Priority

pub record SendFields : Type 0 where
  pub id : Text
  pub to : Bytes
  pub priority : Priority
  pub envelope : Envelope

pub record PushFields : Type 0 where
  pub id : Text
  pub from : Bytes
  pub envelope : Envelope

pub record ErrorFields : Type 0 where
  pub code : Text
  pub message : Text
  pub id : Option Text

pub data Frame : Type 0 where
  hello : Hello → Frame
  ack : Text → Frame
  send : SendFields → Frame
  push : PushFields → Frame
  error : ErrorFields → Frame

unfoldable pub other_id : Frame → Option Text
other_id (Frame.hello h) = some h.session_id
other_id (Frame.send s) = some s.id
other_id (Frame.ack id) = some id
other_id (Frame.push p) = some p.id
other_id (Frame.error e) = e.id

-- The broker with the sessions that are past their hello and all that was sent.
pub record World : Type 0 where
  pub broker : BrokerState
  pub sessions : List (Sender × MemberRecord)
  pub sent : List (Sender × Frame)

abbrev pub new_world : World
new_world = record { broker = new_broker; sessions = []; sent = [] }

unfoldable pub send_to : Sender → Frame → World → World
send_to tx frame w = record w { sent = w.sent ++ (tx, frame) ∷ [] }

unfoldable pub send_error : Sender → Text → Text → Option Text → World → World
unfolding send_to
send_error tx code message id w =
    send_to tx (Frame.error (record { code = code; message = message; id = id })) w

unfoldable pub reject_code : Error → Text
reject_code Error.bad_signature = codes "bad_signature"
reject_code _ = codes "stale_hello"

-- A member is acknowledged and attached; the older channel of the same address is dropped.
unfoldable pub admit : Sender → Hello → Option MemberRecord → World → World
unfolding send_error send_to attach_peer
admit tx h none w =
    send_error tx (codes "not_a_member") (codes "address not enrolled in mesh") (some h.session_id)
      w
admit tx h (some member) w =
    let (_, broker') = attach_peer member.address tx w.broker in
    record (send_to tx (Frame.ack h.session_id) w) {
      broker = broker';
      sessions = (tx, member) ∷ w.sessions;
    }

unfoldable pub check_hello : Sender → Hello → Result Checked → World → World
unfolding send_error reject_code admit lookup
check_hello tx h (err e) w =
    send_error tx (reject_code e) (codes "hello rejected") (some h.session_id) w
check_hello tx h (ok _) w = admit tx h (lookup h.mesh_id h.address w.broker) w

unfoldable pub session_of : Sender → List (Sender × MemberRecord) → Option MemberRecord
session_of tx [] = none
session_of tx ((t, member) ∷ sessions) =
    let rest = session_of tx sessions in if t == tx then some member else rest

unfoldable pub without : Sender → List (Sender × MemberRecord) → List (Sender × MemberRecord)
without tx [] = []
without tx ((t, member) ∷ sessions) =
    let rest = without tx sessions in if t == tx then rest else (t, member) ∷ rest

-- One frame of the read loop; only `Send` does anything.
unfoldable pub forward : MemberRecord → Frame → World → World
unfolding route send_to
forward member (Frame.send s) w = elim (route s.to w.broker) [
  | none ↦ w
  | some target ↦
      send_to target
        (Frame.push (record { id = s.id; from = member.address; envelope = s.envelope })) w
]
forward member _ w = w

unfoldable pub close_session : Sender → MemberRecord → World → World
unfolding detach_peer without
close_session tx member w = record w {
  broker = detach_peer member.address w.broker;
  sessions = without tx w.sessions;
}

-- A join request; the first frame of a connection, with the time; a later frame; the end of a
-- connection.
pub data Event : Type 0 where
  join : Text → JoinRequest → ℕ → ℕ → Event
  first : Sender → Frame → ℕ → Event
  next : Sender → Frame → Event
  close : Sender → Event

module _ (api : CryptoApi) where
  unfoldable pub open_session : Sender → Frame → ℕ → World → World
  unfolding check_hello send_error other_id
  open_session tx (Frame.hello h) now_ms w =
      check_hello tx h (tkr.Mesh.Hello.verify_with_now api h now_ms hello_max_skew_ms) w
  open_session tx frame now_ms w =
      send_error tx (codes "want_hello") (codes "first frame must be hello") (other_id frame) w

  unfoldable pub handle : Event → World → World
  unfolding handle_join open_session session_of forward close_session
  handle (Event.join fresh_id body now_s now_ms) w =
      let (_, broker') = handle_join api fresh_id w.broker body now_s now_ms in
      record w { broker = broker' }
  handle (Event.first tx frame now_ms) w = open_session tx frame now_ms w
  handle (Event.next tx frame) w = elim (session_of tx w.sessions) [
    | none ↦ w
    | some member ↦ forward member frame w
  ]
  handle (Event.close tx) w = elim (session_of tx w.sessions) [
    | none ↦ w
    | some member ↦ close_session tx member w
  ]

  unfoldable pub run : List Event → World → World
  unfolding handle
  run [] w = w
  run (e ∷ es) w = run es (handle e w)
