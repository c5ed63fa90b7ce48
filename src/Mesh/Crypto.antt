-- ===== src/Mesh/Crypto.antt =====
-- crates/jkr-mesh/src/identity.rs over the `k256`, `sha3` and `hex` crates, which are a parameter,
-- and `parse_signature`, which attestation.rs, frames.rs, invite.rs and payment.rs each declare.
use tkr.Prelude.{
  ℕ, ◌+◌, ◌-◌, ◌<◌, ◌≡◌, refl, Option, none, some, [], ◌∷◌, ◌++◌, Text, codes, length,
  length-append, get_elem?, take, drop, All, All-append, ltb, ◌==◌, if◌then◌else◌, starts_with,
  text_eq, text_eq_iff, ◌↔◌, arith, ap, subst, ◌∙◌,
}
use tkr.Mesh.Bytes.{Bytes, Error, Result, ok, err, ◌>>=◌, Checked, checked, strip_0x}

pub record CryptoApi : Type 1 where
  -- `SigningKey`
  pub SigningKey : Type 0
  -- `verifying_key().to_encoded_point(false)`: 0x04 and the two coordinates.
  pub encoded_point : SigningKey → Bytes
  -- `sign_prehash_recoverable`: 64 bytes and the recovery id.
  pub sign_prehash : SigningKey → Bytes → Bytes × ℕ
  -- `RecoveryId::from_byte`, `Signature::from_slice` and `VerifyingKey::recover_from_prehash`, with
  -- the encoded point of the key: `none` where one of them fails.
  pub recover_from_prehash : Bytes → Bytes → ℕ → Option Bytes
  pub keccak256 : Bytes → Bytes
  pub hex_encode : Bytes → Text
  pub hex_decode : Text → Option Bytes

abbrev pub IsByte : ℕ → Type 0
IsByte b = b < 256

pub record CryptoLaws (api : CryptoApi) : Type 0 where
  pub sign_length :
      (key : api.SigningKey) (digest : Bytes) → length (api.sign_prehash key digest).0 ≡ 64
  pub sign_bytes :
      (key : api.SigningKey) (digest : Bytes) → All IsByte (api.sign_prehash key digest).0
  pub recovery_id : (key : api.SigningKey) (digest : Bytes) → (api.sign_prehash key digest).1 < 4
  -- The key that signed comes back.
  pub recover_sign :
      (key : api.SigningKey) (digest : Bytes)
      → let (sig, recid) = api.sign_prehash key digest in
        api.recover_from_prehash digest sig recid ≡ some (api.encoded_point key)
  pub hex_decode_encode :
      (bs : Bytes) → All IsByte bs → api.hex_decode (api.hex_encode bs) ≡ some bs

module _ (api : CryptoApi) where
  open api use {SigningKey}

  -- `address_from_verifying`
  unfoldable pub address_from_verifying : Bytes → Bytes
  address_from_verifying encoded = drop 12 (api.keccak256 (drop 1 encoded))

  -- `Identity::address`
  unfoldable pub address : SigningKey → Bytes
  unfolding address_from_verifying
  address key = address_from_verifying (api.encoded_point key)

  -- `encode_eth_signature`
  unfoldable pub encode_eth_signature : Bytes → ℕ → Bytes
  encode_eth_signature sig recid = sig ++ (27 + recid) ∷ []

  unfoldable pub sign_digest : SigningKey → Bytes → Bytes
  unfolding encode_eth_signature
  sign_digest key digest =
      let (sig, recid) = api.sign_prehash key digest in encode_eth_signature sig recid

  -- The last byte is 27 and the recovery id.
  unfoldable pub recover_with : Bytes → Bytes → ℕ → Result Bytes
  unfolding address_from_verifying
  recover_with digest sig v =
      if ltb v 27
      then err Error.bad_signature
      else (elim (api.recover_from_prehash digest sig (v - 27)) [
        | none ↦ err Error.bad_signature
        | some encoded ↦ ok (address_from_verifying encoded)
      ])

  -- `recover_address`; the signature has 65 bytes.
  unfoldable pub recover_address : Bytes → Bytes → Result Bytes
  unfolding recover_with
  recover_address digest signature = elim (get_elem? signature 64) [
    | none ↦ err Error.bad_signature
    | some v ↦ recover_with digest (take 64 signature) v
  ]

  -- Hexadecimal digits of `size` bytes.
  unfoldable pub parse_hex : ℕ → Text → Result Bytes
  unfolding strip_0x
  parse_hex size s = elim (api.hex_decode (strip_0x s)) [
    | none ↦ err Error.encoding
    | some bytes ↦ if length bytes == size then ok bytes else err Error.encoding
  ]

  unfoldable pub parse_signature : Text → Result Bytes
  unfolding parse_hex
  parse_signature s = parse_hex 65 s

  -- `format!("0x{}", hex::encode(bytes))`
  unfoldable pub print_hex : Bytes → Text
  print_hex bytes = codes "0x" ++ api.hex_encode bytes

  -- Signing a digest, as the messages carry it.
  unfoldable pub signature_of : SigningKey → Bytes → Text
  unfolding sign_digest print_hex
  signature_of key digest = print_hex (sign_digest key digest)

  -- The check that the messages share: the signature over `digest` is that of `signer`.
  unfoldable pub check_signer : Bytes → Text → Result Bytes
  unfolding recover_address parse_signature
  check_signer digest signature = do sig ← parse_signature signature; recover_address digest sig

  -- `Err(BadSignature)` where the signature recovers to another address than the claimed one.
  unfoldable pub require_signer : Bytes → Text → Bytes → Result Checked
  unfolding check_signer
  require_signer digest signature claimed = do
    recovered ← check_signer digest signature
    if text_eq recovered claimed then ok checked else err Error.bad_signature

  pub require_signer_iff :
      (digest : Bytes) (signature : Text) (claimed : Bytes)
      → (require_signer digest signature claimed ≡ ok checked)
        ↔ (check_signer digest signature ≡ ok claimed)
  unfolding require_signer
  require_signer_iff digest signature claimed = go (check_signer digest signature)
    where
      go :
          (r : Result Bytes)
          → ((r >>= (λ recovered.
                if text_eq recovered claimed then ok checked else err Error.bad_signature))
              ≡ ok checked)
            ↔ (r ≡ ok claimed)
      go (ok recovered) = ground (arith, text_eq_iff recovered claimed)
      go (err e) = ground arith

module _ (api : CryptoApi) (laws : CryptoLaws api) where
  open api use {SigningKey}

  strip_0x-print : (s : Text) → strip_0x (codes "0x" ++ s) ≡ s
  unfolding strip_0x starts_with
  strip_0x-print s = refl

  get_elem?-last : (xs : Bytes) (x : ℕ) → get_elem? (xs ++ x ∷ []) (length xs) ≡ some x
  get_elem?-last [] x = refl
  get_elem?-last (y ∷ xs) x = get_elem?-last xs x

  take-all : (xs ys : Bytes) → take (length xs) (xs ++ ys) ≡ xs
  take-all [] ys = refl
  take-all (x ∷ xs) ys = ap (◌∷◌ x) (take-all xs ys)

  -- What is printed is parsed back.
  pub parse_hex-print_hex :
      (size : ℕ) (bytes : Bytes)
      → All IsByte bytes
      → length bytes ≡ size
      → parse_hex api size (print_hex api bytes) ≡ ok bytes
  unfolding print_hex
  parse_hex-print_hex size bytes small same =
      let decoded : api.hex_decode (strip_0x (codes "0x" ++ api.hex_encode bytes)) ≡ some bytes =
        ap api.hex_decode (strip_0x-print (api.hex_encode bytes))
        ∙ laws.hex_decode_encode bytes small in
      unfold parse_hex in ground (arith, decoded)

  sign_digest-bytes :
      (key : SigningKey) (digest : Bytes)
      → All IsByte (sign_digest api key digest) × (length (sign_digest api key digest) ≡ 65)
  unfolding sign_digest encode_eth_signature
  sign_digest-bytes key digest =
      let (sig, recid) = api.sign_prehash key digest in
      (
        All-append IsByte sig ((27 + recid) ∷ []) (laws.sign_bytes key digest)
            (omega (arith, laws.recovery_id key digest), tt),
        omega (arith, length-append sig ((27 + recid) ∷ []), laws.sign_length key digest),
      )

  recover_with-sign :
      (key : SigningKey) (digest : Bytes)
      → let (sig, recid) = api.sign_prehash key digest in
        recover_with api digest sig (27 + recid) ≡ ok (address api key)
  unfolding address
  recover_with-sign key digest =
      let (sig, recid) = api.sign_prehash key digest in
      let recid_eq : 27 + recid - 27 ≡ recid = omega arith in
      let found : api.recover_from_prehash digest sig (27 + recid - 27)
          ≡ some (api.encoded_point key) =
        ap (api.recover_from_prehash digest sig) recid_eq ∙ laws.recover_sign key digest in
      unfold recover_with in ground (arith, found)

  recover_address-at :
      (digest signature front : Bytes) (v : ℕ)
      → get_elem? signature 64 ≡ some v
      → take 64 signature ≡ front
      → recover_address api digest signature ≡ recover_with api digest front v
  recover_address-at digest signature front v last cut =
      unfold recover_address in ground (arith, last, cut)

  recover_address-sign_digest :
      (key : SigningKey) (digest : Bytes)
      → recover_address api digest (sign_digest api key digest) ≡ ok (address api key)
  unfolding sign_digest encode_eth_signature
  recover_address-sign_digest key digest =
      let (sig, recid) = api.sign_prehash key digest in
      let size = laws.sign_length key digest in
      let last : get_elem? (sig ++ (27 + recid) ∷ []) 64 ≡ some (27 + recid) =
        subst (λ n. get_elem? (sig ++ (27 + recid) ∷ []) n ≡ some (27 + recid)) size
          (get_elem?-last sig (27 + recid)) in
      let front : take 64 (sig ++ (27 + recid) ∷ []) ≡ sig =
        subst (λ n. take n (sig ++ (27 + recid) ∷ []) ≡ sig) size
          (take-all sig ((27 + recid) ∷ [])) in
      recover_address-at digest (sig ++ (27 + recid) ∷ []) sig (27 + recid) last front
      ∙ recover_with-sign key digest

  -- What a key signs is checked to be from the key's address.
  pub check_signer-signature_of :
      (key : SigningKey) (digest : Bytes)
      → check_signer api digest (signature_of api key digest) ≡ ok (address api key)
  unfolding check_signer signature_of parse_signature
  check_signer-signature_of key digest =
      let (bytes, size) = sign_digest-bytes key digest in
      rw (parse_hex-print_hex 65 (sign_digest api key digest) bytes size)
        (recover_address-sign_digest key digest)
