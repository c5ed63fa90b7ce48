-- ===== src/Mesh/Invite.antt =====
-- `Invite` of crates/jkr-mesh/src/invite.rs: what the owner of a mesh signs.
use tkr.Prelude.{
  ℕ, ◌<◌, ◌≡◌, refl, ◌↔◌, [], ◌∷◌, ◌++◌, Text, codes, leb, ◌==◌, if◌then◌else◌, arith,
}
use tkr.Mesh.Bytes.{Bytes, Error, Result, ok, err, Checked, checked, as_bytes, to_be_bytes, zeros}
use tkr.Mesh.Crypto
use tkr.Mesh.Crypto.{
  CryptoApi, CryptoLaws, signature_of, require_signer, require_signer_iff, check_signer,
  check_signer-signature_of,
}

pub data Role : Type 0 where
  admin member : Role

unfoldable pub role_str : Role → Text
role_str Role.admin = codes "admin"
role_str Role.member = codes "member"

pub record Invite : Type 0 where
  pub v : ℕ
  pub mesh_id : Text
  pub mesh_slug : Text
  pub broker_url : Text
  pub expires_at : ℕ
  pub role : Role
  pub owner : Bytes
  pub signature : Text

-- `u256_be` of a 64-bit number.
unfoldable pub u256_be : ℕ → Bytes
unfolding zeros to_be_bytes
u256_be n = zeros 24 ++ to_be_bytes 8 n

unfoldable pub address_padded : Bytes → Bytes
unfolding zeros
address_padded addr = zeros 12 ++ addr

module _ (api : CryptoApi) where
  open api use {SigningKey}

  unfoldable pub domain_separator : Bytes
  unfolding zeros
  domain_separator = api.keccak256 (
      api.keccak256
        (codes "EIP712Domain(string name,string version,uint256 chainId,address verifyingContract)")
      ++ api.keccak256 (codes "jkr-mesh")
      ++ api.keccak256 (codes "1")
      ++ zeros 32
      ++ zeros 32)

  unfoldable pub struct_hash : Invite → Bytes
  unfolding u256_be as_bytes role_str address_padded
  struct_hash invite = api.keccak256 (
      api.keccak256 (
        codes
          "Invite(uint32 v,string meshId,string meshSlug,string brokerUrl,uint64 expiresAt,string role,address owner)")
      ++ u256_be invite.v
      ++ api.keccak256 (as_bytes invite.mesh_id)
      ++ api.keccak256 (as_bytes invite.mesh_slug)
      ++ api.keccak256 (as_bytes invite.broker_url)
      ++ u256_be invite.expires_at
      ++ api.keccak256 (as_bytes (role_str invite.role))
      ++ address_padded invite.owner)

  unfoldable pub eip712_digest : Invite → Bytes
  unfolding struct_hash domain_separator
  eip712_digest invite = api.keccak256 (0x19 ∷ 0x01 ∷ [] ++ domain_separator ++ struct_hash invite)

  -- The invite before it is signed.
  unfoldable pub unsigned : Bytes → Text → Text → Text → ℕ → Role → Invite
  unsigned owner mesh_id mesh_slug broker_url expires_at role = record {
    v = 1;
    mesh_id = mesh_id;
    mesh_slug = mesh_slug;
    broker_url = broker_url;
    expires_at = expires_at;
    role = role;
    owner = owner;
    signature = [];
  }

  unfoldable pub issue : SigningKey → Text → Text → Text → ℕ → Role → Invite
  unfolding unsigned eip712_digest
  issue owner_identity mesh_id mesh_slug broker_url expires_at role =
      let invite =
        unsigned (tkr.Mesh.Crypto.address api owner_identity) mesh_id mesh_slug broker_url
          expires_at role in
      record invite { signature = signature_of api owner_identity (eip712_digest invite) }

  unfoldable pub verify : Invite → ℕ → Result Checked
  unfolding eip712_digest
  verify invite now =
      if invite.v == 1
      then if leb invite.expires_at now
        then err (Error.expired invite.expires_at now)
        else require_signer api (eip712_digest invite) invite.signature invite.owner
      else err Error.invalid_invite

  -- An invite is accepted exactly if its version is 1, it has not expired, and its signature
  -- recovers to the owner that the invite itself names.
  pub verify-invite_iff :
      (invite : Invite) (now : ℕ)
      → (verify invite now ≡ ok checked) ↔ (
          (invite.v ≡ 1)
          × (now < invite.expires_at)
          × (check_signer api (eip712_digest invite) invite.signature ≡ ok invite.owner))
  unfolding verify
  verify-invite_iff invite now =
      let signer = require_signer_iff api (eip712_digest invite) invite.signature invite.owner in
      ground (arith, signer)

  module _ (laws : CryptoLaws api) where
    -- Whoever issues an invite, for whatever mesh, issues one that is accepted until it expires.
    pub verify-issue :
        (key : SigningKey) (mesh_id mesh_slug broker_url : Text) (expires_at now : ℕ) (role : Role)
        → now < expires_at
        → verify (issue key mesh_id mesh_slug broker_url expires_at role) now ≡ ok checked
    unfolding issue unsigned eip712_digest struct_hash
    verify-issue key mesh_id mesh_slug broker_url expires_at now role live =
        let owner = tkr.Mesh.Crypto.address api key in
        (verify-invite_iff (issue key mesh_id mesh_slug broker_url expires_at role) now).1 (
          refl,
          live,
          check_signer-signature_of api laws key
              (eip712_digest (unsigned owner mesh_id mesh_slug broker_url expires_at role)),
        )
