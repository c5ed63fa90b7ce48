-- ===== src/Broker/Session/Origin.antt =====
-- `run_ws_session` of crates/jkr-server/src/broker.rs: whom a pushed frame comes from, and who is
-- reachable after a connection ended.
use tkr.Prelude.{
  ℕ, ◌≡◌, refl, ◌⊎◌, inl, inr, none, some, List, [], ◌∷◌, Text, All, if_cases, not, Option-cases,
  text_eq,
}
use tkr.Table.{get-remove}
use tkr.Mesh.Bytes.{Bytes, Result, ok, err, Checked, checked}
use tkr.Mesh.Crypto.{CryptoApi}
use tkr.Mesh.Invite
use tkr.Mesh.Attestation.{join_attestation_max_skew_ms, verify_with_now}
use tkr.Mesh.Hello
use tkr.Mesh.Hello.{Hello, hello_max_skew_ms}
use tkr.Broker.State.{BrokerState, MemberRecord, Sender, detach_peer, route}
use tkr.Broker.Join.{JoinRequest, JoinReply, is_err, attested, handle_join}
use tkr.Broker.Session.{
  World, new_world, Frame, Event, session_of, close_session, open_session, handle, run,
}
use tkr.Broker.Session.Sound.{
  IsFiled, HasOrigin, IsSound, IsFiled-enroll, IsFiled-new, session_of-All, IsSound-send_error,
  IsSound-check_hello, IsSound-forward, IsSound-close_session,
}

-- One of the elements satisfies `Q`.
unfoldable pub SomeOf {ℓ} : {A : Type ℓ} → (A → Type 0) → List A → Type 0
SomeOf Q [] = ⊥
SomeOf Q (x ∷ xs) = Q x ⊎ SomeOf Q xs

module _ (api : CryptoApi) where
  -- The event, if it is a hello that is accepted, is one of an address that satisfies `P`.
  Admits : (Bytes → Type 0) → Event → Type 0
  Admits P (Event.first tx (Frame.hello h) now_ms) =
      tkr.Mesh.Hello.verify_with_now api h now_ms hello_max_skew_ms ≡ ok checked → P h.address
  Admits P _ = Unit

  IsFiled-attested :
      (fresh_id : Text) (body : JoinRequest) (broker : BrokerState) (r : Result Checked)
      → IsFiled broker
      → IsFiled (attested api fresh_id body broker r).1
  IsFiled-attested fresh_id body broker (err e) filed = filed
  IsFiled-attested fresh_id body broker (ok _) filed =
      IsFiled-enroll fresh_id body.invite_payload.mesh_id body.address body.display_name broker
        filed

  IsFiled-handle_join :
      (fresh_id : Text) (broker : BrokerState) (body : JoinRequest) (now_s now_ms : ℕ)
      → IsFiled broker
      → IsFiled (handle_join api fresh_id broker body now_s now_ms).1
  unfolding handle_join
  IsFiled-handle_join fresh_id broker body now_s now_ms filed =
      let att = body.join_attestation in
      let invite = body.invite_payload in
      let attest = verify_with_now api att body.invite_token now_ms join_attestation_max_skew_ms in
      let FiledAfter : JoinReply × BrokerState → Type 0 = λ r. IsFiled r.1 in
      if_cases FiledAfter (is_err api (tkr.Mesh.Invite.verify api invite now_s)) _ _ (λ _. filed)
        (λ _.
          if_cases FiledAfter (not (text_eq att.mesh_id invite.mesh_id)) _ _ (λ _. filed)
            (λ _.
              if_cases FiledAfter (not (text_eq att.address body.address)) _ _ (λ _. filed)
                (λ _. IsFiled-attested fresh_id body broker attest filed)))

  IsSound-handle :
      (P : Bytes → Type 0) (e : Event) (w : World)
      → Admits P e
      → IsSound P w
      → IsSound P (handle api e w)
  unfolding handle open_session IsSound Admits
  IsSound-handle P (Event.join fresh_id body now_s now_ms) w admitted sound =
      let (filed, sessions, sent) : IsSound P w = sound in
      (IsFiled-handle_join fresh_id w.broker body now_s now_ms filed, sessions, sent)
  IsSound-handle P (Event.first tx (Frame.hello h) now_ms) w admitted sound =
      IsSound-check_hello P tx h _ w admitted sound
  IsSound-handle P (Event.first tx (Frame.ack id) now_ms) w admitted sound =
      IsSound-send_error P tx _ _ _ w sound
  IsSound-handle P (Event.first tx (Frame.send s) now_ms) w admitted sound =
      IsSound-send_error P tx _ _ _ w sound
  IsSound-handle P (Event.first tx (Frame.push p) now_ms) w admitted sound =
      IsSound-send_error P tx _ _ _ w sound
  IsSound-handle P (Event.first tx (Frame.error e) now_ms) w admitted sound =
      IsSound-send_error P tx _ _ _ w sound
  IsSound-handle P (Event.next tx frame) w admitted sound =
      elim (Option-cases (session_of tx w.sessions)) [
        | inl none_such ↦ rw (handle, none_such) sound
        | inr (member, open') ↦
            let (_, sessions, _) : IsSound P w = sound in
            rw (handle, open')
              (IsSound-forward P member frame w
                (session_of-All P tx w.sessions member sessions open') sound)
      ]
  IsSound-handle P (Event.close tx) w admitted sound =
      elim (Option-cases (session_of tx w.sessions)) [
        | inl none_such ↦ rw (handle, none_such) sound
        | inr (member, open') ↦ rw (handle, open') (IsSound-close_session P tx member w sound)
      ]

  IsSound-run :
      (P : Bytes → Type 0) (es : List Event) (w : World)
      → All (Admits P) es
      → IsSound P w
      → IsSound P (run api es w)
  unfolding run
  IsSound-run P [] w admitted sound = sound
  IsSound-run P (e ∷ es) w (admitted, later) sound =
      IsSound-run P es (handle api e w) later (IsSound-handle P e w admitted sound)

  -- The event is an accepted hello of that address.
  unfoldable pub Vouches : Bytes → Event → Type 0
  Vouches a (Event.first tx (Frame.hello h) now_ms) =
      (tkr.Mesh.Hello.verify_with_now api h now_ms hello_max_skew_ms ≡ ok checked) × (h.address ≡ a)
  Vouches a _ = ⊥

  -- Every event vouches for whom it admits.
  Admits-self : (e : Event) → Admits (λ a. Vouches a e) e
  unfolding Admits Vouches
  Admits-self (Event.first tx (Frame.hello h) now_ms) = λ accepted. (accepted, refl)
  Admits-self (Event.first tx (Frame.ack id) now_ms) = tt
  Admits-self (Event.first tx (Frame.send s) now_ms) = tt
  Admits-self (Event.first tx (Frame.push p) now_ms) = tt
  Admits-self (Event.first tx (Frame.error e) now_ms) = tt
  Admits-self (Event.join fresh_id body now_s now_ms) = tt
  Admits-self (Event.next tx frame) = tt
  Admits-self (Event.close tx) = tt

  Admits-mono :
      (P Q : Bytes → Type 0) → ((a : Bytes) → P a → Q a) → (e : Event) → Admits P e → Admits Q e
  unfolding Admits
  Admits-mono P Q f (Event.first tx (Frame.hello h) now_ms) = λ g accepted. f h.address (g accepted)
  Admits-mono P Q f (Event.first tx (Frame.ack id) now_ms) = λ _. tt
  Admits-mono P Q f (Event.first tx (Frame.send s) now_ms) = λ _. tt
  Admits-mono P Q f (Event.first tx (Frame.push p) now_ms) = λ _. tt
  Admits-mono P Q f (Event.first tx (Frame.error e) now_ms) = λ _. tt
  Admits-mono P Q f (Event.join fresh_id body now_s now_ms) = λ _. tt
  Admits-mono P Q f (Event.next tx frame) = λ _. tt
  Admits-mono P Q f (Event.close tx) = λ _. tt

  Admits-All_mono :
      (P Q : Bytes → Type 0)
      → ((a : Bytes) → P a → Q a)
      → (es : List Event) → All (Admits P) es
      → All (Admits Q) es
  Admits-All_mono P Q f [] all = tt
  Admits-All_mono P Q f (e ∷ es) (h, all) = (Admits-mono P Q f e h, Admits-All_mono P Q f es all)

  Admits-vouched : (es : List Event) → All (Admits (λ a. SomeOf (Vouches a) es)) es
  unfolding SomeOf
  Admits-vouched [] = tt
  Admits-vouched (e ∷ es) = (
    Admits-mono (λ a. Vouches a e) (λ a. SomeOf (Vouches a) (e ∷ es)) (λ a v. inl v) e
        (Admits-self e),
    Admits-All_mono (λ a. SomeOf (Vouches a) es) (λ a. SomeOf (Vouches a) (e ∷ es)) (λ a v. inr v)
        es (Admits-vouched es),
  )

  -- The end of a connection takes the channel of its address away, whichever connection the channel
  -- belongs to: an older connection that ends makes a newer one of the same member unreachable.
  pub close-unreachable :
      (tx : Sender) (member : MemberRecord) (w : World)
      → session_of tx w.sessions ≡ some member
      → route member.address (handle api (Event.close tx) w).broker ≡ none
  unfolding handle
  close-unreachable tx member w open' =
      rw (handle, open')
        (unfold close_session detach_peer route in get-remove member.address w.broker.peers)

  -- However joins, connections, frames and disconnections interleave, every frame that the broker
  -- pushes names as its sender an address for which it accepted a hello.
  pub run-HasOrigin :
      (es : List Event) → All (HasOrigin (λ a. SomeOf (Vouches a) es)) (run api es new_world).sent
  unfolding IsSound
  run-HasOrigin es =
      (IsSound-run (λ a. SomeOf (Vouches a) es) es new_world (Admits-vouched es)
        (IsFiled-new, tt, tt)).2
