-- ===== src/Broker/Join.antt =====
-- `handle_join` of crates/jkr-server/src/broker.rs: who presents an invite and proves an address
-- becomes a member of the invite's mesh.
use tkr.Prelude.{
  ℕ, ◌≤◌, ◌<◌, ◌≡◌, refl, ◌↔◌, ◌⊎◌, inl, inr, Bool, true, false, not, Option, none, some, Text,
  codes, text_eq, text_eq_iff, if◌then◌else◌, arith, Bool-cases,
}
use tkr.Mesh.Bytes.{Bytes, Error, Result, ok, err, Checked, checked, as_bytes, abs_diff}
use tkr.Mesh.Crypto
use tkr.Mesh.Attestation
use tkr.Mesh.Crypto.{CryptoApi, CryptoLaws, check_signer}
use tkr.Mesh.Invite
use tkr.Mesh.Invite.{Invite, Role, verify-issue, eip712_digest, verify-invite_iff}
use tkr.Mesh.Attestation.{
  JoinAttestation, join_attestation_max_skew_ms, verify_with_now, verify_with_now_iff,
  verify_with_now-issue, keccak256_hex, digest_of,
}
use tkr.Broker.State.{BrokerState, MemberRecord, enroll, lookup, lookup-enroll}

pub record JoinRequest : Type 0 where
  pub invite_token : Text
  pub invite_payload : Invite
  pub address : Bytes
  pub join_attestation : JoinAttestation
  pub display_name : Option Text

-- The text of a `JoinError`; the status is 403 each time.
pub data JoinError : Type 0 where
  invite_failed mesh_id_mismatch address_mismatch : JoinError
  attestation_rejected : Error → JoinError

-- The member id of `JoinResponse`, or the error.
pub data JoinReply : Type 0 where
  joined : Text → JoinReply
  refused : JoinError → JoinReply

module _ (api : CryptoApi) where
  unfoldable pub is_err : Result Checked → Bool
  is_err (ok _) = false
  is_err (err _) = true

  abbrev pub attested : Text → JoinRequest → BrokerState → Result Checked → JoinReply × BrokerState
  attested fresh_id body broker (err e) =
      (JoinReply.refused (JoinError.attestation_rejected e), broker)
  attested fresh_id body broker (ok _) =
      let (record', broker') =
        enroll fresh_id body.invite_payload.mesh_id body.address body.display_name broker in
      (JoinReply.joined record'.member_id, broker')

  unfoldable pub handle_join : Text → BrokerState → JoinRequest → ℕ → ℕ → JoinReply × BrokerState
  unfolding is_err
  handle_join fresh_id broker body now now_ms =
      let att = body.join_attestation in
      if is_err (tkr.Mesh.Invite.verify api body.invite_payload now)
      then (JoinReply.refused JoinError.invite_failed, broker)
      else if not (text_eq att.mesh_id body.invite_payload.mesh_id)
      then (JoinReply.refused JoinError.mesh_id_mismatch, broker)
      else if not (text_eq att.address body.address)
      then (JoinReply.refused JoinError.address_mismatch, broker)
      else attested fresh_id body broker
          (verify_with_now api att body.invite_token now_ms join_attestation_max_skew_ms)

  -- What the handler checks: a live invite that its own owner signed, and a fresh attestation, for
  -- the invite's mesh and the joiner's address, that carries the hash of the token that was sent.
  unfoldable pub IsEntitled : JoinRequest → ℕ → ℕ → Type 0
  IsEntitled body now now_ms =
      let invite = body.invite_payload in
      let att = body.join_attestation in
      (invite.v ≡ 1)
      × (now < invite.expires_at)
      × (check_signer api (eip712_digest api invite) invite.signature ≡ ok invite.owner)
      × (att.mesh_id ≡ invite.mesh_id)
      × (att.address ≡ body.address)
      × (att.invite_token_hash ≡ keccak256_hex api (as_bytes body.invite_token))
      × (check_signer api (digest_of api att) att.signature ≡ ok att.address)
      × (abs_diff att.timestamp_ms now_ms ≤ join_attestation_max_skew_ms)

  is_err_iff : (r : Result Checked) → (is_err r ≡ false) ↔ (r ≡ ok checked)
  unfolding is_err
  is_err_iff (ok checked) = (λ _. refl, λ _. refl)
  is_err_iff (err e) = ground arith

  attested-lem :
      (fresh_id : Text) (body : JoinRequest) (broker : BrokerState) (r : Result Checked)
      → let (reply, broker') = attested fresh_id body broker r in
        ((r ≡ ok checked)
          × ((m : MemberRecord) × (reply ≡ JoinReply.joined m.member_id)
              × (lookup body.invite_payload.mesh_id body.address broker' ≡ some m)))
        ⊎ ((¬ (r ≡ ok checked))
            × ((e : JoinError) × (reply ≡ JoinReply.refused e))
            × (broker' ≡ broker))
  attested-lem fresh_id body broker (ok checked) =
      let mesh_id = body.invite_payload.mesh_id in
      inl (
        refl,
        (
          (enroll fresh_id mesh_id body.address body.display_name broker).0,
          refl,
          (lookup-enroll fresh_id mesh_id body.address body.display_name broker).0,
        ),
      )
  attested-lem fresh_id body broker (err e) =
      inr (λ h. ground (arith, h), (JoinError.attestation_rejected e, refl), refl)

  -- A refused request leaves the state as it was; an entitled one enrols the address in the
  -- invite's mesh and answers with the id of the record that a lookup then finds; and no other
  -- request is answered with an id.
  pub handle_join_lem :
      (fresh_id : Text) (broker : BrokerState) (body : JoinRequest) (now now_ms : ℕ)
      → let (reply, broker') = handle_join fresh_id broker body now now_ms in
        (IsEntitled body now now_ms
          × ((r : MemberRecord) × (reply ≡ JoinReply.joined r.member_id)
              × (lookup body.invite_payload.mesh_id body.address broker' ≡ some r)))
        ⊎ ((¬ IsEntitled body now now_ms)
            × ((e : JoinError) × (reply ≡ JoinReply.refused e))
            × (broker' ≡ broker))
  unfolding handle_join IsEntitled
  handle_join_lem fresh_id broker body now now_ms =
      let invite = body.invite_payload in
      let att = body.join_attestation in
      let verified = tkr.Mesh.Invite.verify api invite now in
      let attest = verify_with_now api att body.invite_token now_ms join_attestation_max_skew_ms in
      let invite_ok = verify-invite_iff api invite now in
      let attest_ok =
        verify_with_now_iff api att body.invite_token now_ms join_attestation_max_skew_ms in
      elim (Bool-cases (is_err verified)) [
        | inl bad ↦ rw bad (
            inr (
              λ entitled. ground (arith, invite_ok, is_err_iff verified, entitled, bad),
              (JoinError.invite_failed, refl),
              refl,
            ))
        | inr good ↦ elim (Bool-cases (text_eq att.mesh_id invite.mesh_id)) [
          | inr other_mesh ↦
              rw (good, other_mesh)
                (inr (
                  λ entitled.
                      ground (arith, text_eq_iff att.mesh_id invite.mesh_id, entitled, other_mesh),
                  (JoinError.mesh_id_mismatch, refl),
                  refl,
                ))
          | inl mesh ↦ elim (Bool-cases (text_eq att.address body.address)) [
            | inr other_address ↦
                rw (good, mesh, other_address)
                  (inr (
                    λ entitled.
                        ground
                          (arith, text_eq_iff att.address body.address, entitled, other_address),
                    (JoinError.address_mismatch, refl),
                    refl,
                  ))
            | inl same ↦
                rw (good, mesh, same)
                  (elim (attested-lem fresh_id body broker attest) [
                    | inl (accepted, member) ↦ inl (
                      ground (
                        arith,
                        invite_ok,
                        is_err_iff verified,
                        text_eq_iff att.mesh_id invite.mesh_id,
                        text_eq_iff att.address body.address,
                        attest_ok,
                        accepted,
                      ),
                      member,
                    )
                    | inr (rejected, refusal, kept) ↦
                        inr
                          (λ entitled. ground (arith, attest_ok, entitled, rejected), refusal, kept)
                  ])
          ]
        ]
      ]

  module _ (laws : CryptoLaws api) where
    open api use {SigningKey}

    -- The request of a joiner with an invite: any token will do, as long as the attestation is for it.
    unfoldable pub request_with : SigningKey → SigningKey → Text → Text → ℕ → ℕ → JoinRequest
    request_with owner joiner mesh_id token expires_at timestamp_ms = record {
      invite_token = token;
      invite_payload =
          tkr.Mesh.Invite.issue api owner mesh_id (codes "slug") (codes "wss://broker") expires_at
            Role.member;
      address = tkr.Mesh.Crypto.address api joiner;
      join_attestation = tkr.Mesh.Attestation.issue api joiner mesh_id token timestamp_ms;
      display_name = none;
    }

    -- Any key can issue the invite, and it need not be what the token holds: whatever the two keys,
    -- the mesh and the token, a live invite and a fresh attestation get the joiner enrolled.
    pub handle_join-self_issued :
        (owner joiner : SigningKey) (fresh_id mesh_id token : Text) (broker : BrokerState)
        (expires_at timestamp_ms now now_ms : ℕ)
        → now < expires_at
        → abs_diff timestamp_ms now_ms ≤ join_attestation_max_skew_ms
        → let body = request_with owner joiner mesh_id token expires_at timestamp_ms in
          let (reply, broker') = handle_join fresh_id broker body now now_ms in
          (r : MemberRecord) × (reply ≡ JoinReply.joined r.member_id)
          × (lookup mesh_id (tkr.Mesh.Crypto.address api joiner) broker' ≡ some r)
    unfolding request_with IsEntitled tkr.Mesh.Invite.issue tkr.Mesh.Attestation.issue
    handle_join-self_issued owner joiner fresh_id mesh_id token broker expires_at timestamp_ms now
          now_ms live near =
        let body = request_with owner joiner mesh_id token expires_at timestamp_ms in
        let invite = body.invite_payload in
        let (version, unexpired, signed) = (verify-invite_iff api invite now).0 (
          verify-issue api laws owner mesh_id (codes "slug") (codes "wss://broker") expires_at now
            Role.member live) in
        let (hash, attested, fresh) =
          (verify_with_now_iff api body.join_attestation token now_ms
              join_attestation_max_skew_ms).0
            (verify_with_now-issue api laws joiner mesh_id token timestamp_ms now_ms
              join_attestation_max_skew_ms near) in
        elim (handle_join_lem fresh_id broker body now now_ms) [
          | inl (_, member) ↦ member
          | inr (not_entitled, _, _) ↦
              absurd (not_entitled (version, unexpired, signed, refl, refl, hash, attested, fresh))
        ]
