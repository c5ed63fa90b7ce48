-- ===== src/Mesh/Attestation.antt =====
-- crates/jkr-mesh/src/attestation.rs: the proof that a joiner holds the key of an address.
use tkr.Prelude.{
  ℕ, ◌*◌, ◌≤◌, ◌≡◌, refl, ◌↔◌, ◌++◌, Text, codes, text_eq, text_eq_iff, ltb, if◌then◌else◌, arith,
}
use tkr.Mesh.Bytes.{
  Bytes, Error, Result, ok, err, ◌>>◌, >>_iff, Checked, checked, as_bytes, to_be_bytes, abs_diff,
}
use tkr.Mesh.Crypto
use tkr.Mesh.Crypto.{
  CryptoApi, CryptoLaws, signature_of, require_signer, require_signer_iff, check_signer,
  check_signer-signature_of,
}

abbrev pub join_attestation_max_skew_ms : ℕ
join_attestation_max_skew_ms = 5 * 60 * 1000

pub record JoinAttestation : Type 0 where
  pub mesh_id : Text
  pub address : Bytes
  pub invite_token_hash : Text
  pub timestamp_ms : ℕ
  pub signature : Text

-- The freshness test that attestations and hellos share.
unfoldable pub check_skew : ℕ → ℕ → ℕ → Result Checked
check_skew timestamp_ms now_ms max_skew_ms =
    if ltb max_skew_ms (abs_diff timestamp_ms now_ms) then err Error.encoding else ok checked

pub check_skew_iff :
    (timestamp_ms now_ms max_skew_ms : ℕ)
    → (check_skew timestamp_ms now_ms max_skew_ms ≡ ok checked)
      ↔ (abs_diff timestamp_ms now_ms ≤ max_skew_ms)
unfolding check_skew
check_skew_iff timestamp_ms now_ms max_skew_ms = ground arith

module _ (api : CryptoApi) where
  open api use {SigningKey}

  unfoldable pub keccak256_hex : Bytes → Text
  keccak256_hex bytes = api.hex_encode (api.keccak256 bytes)

  unfoldable pub attestation_digest : Text → Bytes → Text → ℕ → Bytes
  unfolding as_bytes to_be_bytes
  attestation_digest mesh_id addr token_hash_hex ts_ms = api.keccak256 (
      codes "jkr-mesh/v1/join-attestation\n"
      ++ as_bytes mesh_id
      ++ codes "\n"
      ++ addr
      ++ codes "\n"
      ++ as_bytes token_hash_hex
      ++ codes "\n"
      ++ to_be_bytes 8 ts_ms)

  unfoldable pub issue : SigningKey → Text → Text → ℕ → JoinAttestation
  unfolding keccak256_hex attestation_digest
  issue identity mesh_id invite_token timestamp_ms =
      let token_hash = keccak256_hex (as_bytes invite_token) in
      record {
        mesh_id = mesh_id;
        address = tkr.Mesh.Crypto.address api identity;
        invite_token_hash = token_hash;
        timestamp_ms = timestamp_ms;
        signature = signature_of api identity (
            attestation_digest mesh_id (tkr.Mesh.Crypto.address api identity) token_hash
              timestamp_ms);
      }

  -- The digest of the fields.
  unfoldable pub digest_of : JoinAttestation → Bytes
  unfolding attestation_digest
  digest_of att = attestation_digest att.mesh_id att.address att.invite_token_hash att.timestamp_ms

  unfoldable pub verify : JoinAttestation → Text → Result Checked
  unfolding keccak256_hex digest_of
  verify att expected_invite_token =
      if text_eq att.invite_token_hash (keccak256_hex (as_bytes expected_invite_token))
      then require_signer api (digest_of att) att.signature att.address
      else err Error.encoding

  unfoldable pub verify_with_now : JoinAttestation → Text → ℕ → ℕ → Result Checked
  unfolding verify check_skew
  verify_with_now att expected_invite_token now_ms max_skew_ms = do
    verify att expected_invite_token
    check_skew att.timestamp_ms now_ms max_skew_ms

  verify_iff :
      (att : JoinAttestation) (token : Text)
      → (verify att token ≡ ok checked) ↔ (
          (att.invite_token_hash ≡ keccak256_hex (as_bytes token))
          × (check_signer api (digest_of att) att.signature ≡ ok att.address))
  unfolding verify
  verify_iff att token =
      let hash = text_eq_iff att.invite_token_hash (keccak256_hex (as_bytes token)) in
      let signer = require_signer_iff api (digest_of att) att.signature att.address in
      ground (arith, hash, signer)

  -- An attestation is accepted exactly if it carries the hash of the invite token, its signature
  -- over its fields recovers to its address, and its clock is within the window.
  pub verify_with_now_iff :
      (att : JoinAttestation) (token : Text) (now_ms max_skew_ms : ℕ)
      → (verify_with_now att token now_ms max_skew_ms ≡ ok checked) ↔ (
          (att.invite_token_hash ≡ keccak256_hex (as_bytes token))
          × (check_signer api (digest_of att) att.signature ≡ ok att.address)
          × (abs_diff att.timestamp_ms now_ms ≤ max_skew_ms))
  unfolding verify_with_now
  verify_with_now_iff att token now_ms max_skew_ms =
      let both = >>_iff (verify att token) (check_skew att.timestamp_ms now_ms max_skew_ms) in
      let skew = check_skew_iff att.timestamp_ms now_ms max_skew_ms in
      ground (arith, both, skew, verify_iff att token)

  module _ (laws : CryptoLaws api) where
    -- What a joiner issues for a token is accepted for that token, as long as the clocks are within
    -- the window.
    pub verify_with_now-issue :
        (key : SigningKey) (mesh_id token : Text) (timestamp_ms now_ms max_skew_ms : ℕ)
        → abs_diff timestamp_ms now_ms ≤ max_skew_ms
        → verify_with_now (issue key mesh_id token timestamp_ms) token now_ms max_skew_ms
          ≡ ok checked
    verify_with_now-issue key mesh_id token timestamp_ms now_ms max_skew_ms near =
        let att = issue key mesh_id token timestamp_ms in
        let signed : check_signer api (digest_of att) att.signature ≡ ok att.address =
          unfold issue digest_of in
          check_signer-signature_of api laws key (
            attestation_digest mesh_id (tkr.Mesh.Crypto.address api key)
              (keccak256_hex (as_bytes token)) timestamp_ms) in
        (verify_with_now_iff att token now_ms max_skew_ms).1 (unfold issue in (refl, signed, near))
