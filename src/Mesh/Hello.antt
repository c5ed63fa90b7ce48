-- ===== src/Mesh/Hello.antt =====
-- `Hello` of crates/jkr-mesh/src/frames.rs: the frame that opens a connection to the broker.
use tkr.Prelude.{ℕ, ◌≤◌, ◌≡◌, ◌↔◌, ◌++◌, Text, codes, arith}
use tkr.Mesh.Bytes.{
  Bytes, Result, ok, ◌>>◌, >>_iff, Checked, checked, as_bytes, to_be_bytes, abs_diff,
}
use tkr.Mesh.Crypto
use tkr.Mesh.Crypto.{
  CryptoApi, CryptoLaws, signature_of, require_signer, require_signer_iff, check_signer,
  check_signer-signature_of,
}
use tkr.Mesh.Attestation.{check_skew, check_skew_iff}

abbrev pub hello_max_skew_ms : ℕ
hello_max_skew_ms = 60000

pub record Hello : Type 0 where
  pub mesh_id : Text
  pub address : Bytes
  pub session_id : Text
  pub timestamp_ms : ℕ
  pub signature : Text

module _ (api : CryptoApi) where
  open api use {SigningKey}

  unfoldable pub hello_digest : Text → Bytes → Text → ℕ → Bytes
  unfolding as_bytes to_be_bytes
  hello_digest mesh_id addr session_id ts = api.keccak256 (
      codes "jkr-mesh/v1/hello\n"
      ++ as_bytes mesh_id
      ++ codes "\n"
      ++ addr
      ++ codes "\n"
      ++ as_bytes session_id
      ++ codes "\n"
      ++ to_be_bytes 8 ts)

  unfoldable pub new : SigningKey → Text → Text → ℕ → Hello
  unfolding hello_digest
  new identity mesh_id session_id timestamp_ms = record {
    mesh_id = mesh_id;
    address = tkr.Mesh.Crypto.address api identity;
    session_id = session_id;
    timestamp_ms = timestamp_ms;
    signature =
        signature_of api identity
          (hello_digest mesh_id (tkr.Mesh.Crypto.address api identity) session_id timestamp_ms);
  }

  unfoldable pub verify : Hello → Result Checked
  unfolding hello_digest
  verify hello =
      require_signer api
        (hello_digest hello.mesh_id hello.address hello.session_id hello.timestamp_ms)
        hello.signature hello.address

  unfoldable pub verify_with_now : Hello → ℕ → ℕ → Result Checked
  unfolding verify check_skew
  verify_with_now hello now_ms max_skew_ms = do
    verify hello
    check_skew hello.timestamp_ms now_ms max_skew_ms

  -- A hello is accepted exactly if its signature over its mesh, address, session and time recovers
  -- to its address and its time is within the window.
  pub verify_with_now-hello_iff :
      (hello : Hello) (now_ms max_skew_ms : ℕ)
      → (verify_with_now hello now_ms max_skew_ms ≡ ok checked) ↔ (
          (check_signer api
              (hello_digest hello.mesh_id hello.address hello.session_id hello.timestamp_ms)
              hello.signature
            ≡ ok hello.address)
          × (abs_diff hello.timestamp_ms now_ms ≤ max_skew_ms))
  unfolding verify_with_now
  verify_with_now-hello_iff hello now_ms max_skew_ms =
      let both = >>_iff (verify hello) (check_skew hello.timestamp_ms now_ms max_skew_ms) in
      let skew = check_skew_iff hello.timestamp_ms now_ms max_skew_ms in
      let signer =
        require_signer_iff api
          (hello_digest hello.mesh_id hello.address hello.session_id hello.timestamp_ms)
          hello.signature hello.address in
      unfold verify in ground (arith, both, skew, signer)

  module _ (laws : CryptoLaws api) where
    -- A new hello is accepted as long as the clocks are within the window.
    pub verify_with_now-new :
        (key : SigningKey) (mesh_id session_id : Text) (timestamp_ms now_ms max_skew_ms : ℕ)
        → abs_diff timestamp_ms now_ms ≤ max_skew_ms
        → verify_with_now (new key mesh_id session_id timestamp_ms) now_ms max_skew_ms ≡ ok checked
    unfolding new
    verify_with_now-new key mesh_id session_id timestamp_ms now_ms max_skew_ms near =
        let digest =
          hello_digest mesh_id (tkr.Mesh.Crypto.address api key) session_id timestamp_ms in
        (verify_with_now-hello_iff (new key mesh_id session_id timestamp_ms) now_ms max_skew_ms).1
          (check_signer-signature_of api laws key digest, near)
