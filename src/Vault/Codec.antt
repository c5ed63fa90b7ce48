-- ===== src/Vault/Codec.antt =====
-- crates/jkr/src/host/vault/age_codec.rs over the XChaCha20-Poly1305 and age crates, a parameter.
use tkr.Prelude.{
  ℕ, ◌+◌, ◌≡◌, refl, ap, ◌∙◌, true, ◌&&◌, Option, none, some, [], ◌∷◌, ◌++◌, Text, codes, text_eq,
  take, drop, length, length-append, subst, leb, if◌then◌else◌, arith,
}
use tkr.Mesh.Bytes.{Bytes}

pub record CodecApi : Type 0 where
  -- `cipher.encrypt` and `cipher.decrypt` of a key, a nonce and a text
  pub aead_encrypt : Bytes → Bytes → Bytes → Option Bytes
  pub aead_decrypt : Bytes → Bytes → Bytes → Option Bytes
  pub decrypt_legacy_age : Bytes → Bytes → Option Bytes
  pub hkdf : Bytes → Text → Bytes

-- What the cipher encrypts it decrypts under the same key and nonce.
pub record CodecLaws (api : CodecApi) : Type 0 where
  pub aead_sound :
      (key nonce plain body : Bytes)
      → api.aead_encrypt key nonce plain ≡ some body
      → api.aead_decrypt key nonce body ≡ some plain

abbrev pub magic : Bytes
magic = codes "JKR1"

abbrev pub nonce_len : ℕ
nonce_len = 24

abbrev pub framed : Bytes → Option Bytes → Option Bytes
framed nonce none = none
framed nonce (some ct) = some (magic ++ (nonce ++ ct))

module _ (api : CodecApi) where
  -- The nonce is random.
  unfoldable pub encrypt : Bytes → Bytes → Bytes → Option Bytes
  encrypt key nonce plaintext = framed nonce (api.aead_encrypt key nonce plaintext)

  unfoldable pub decrypt : Bytes → Bytes → Option Bytes
  decrypt key ciphertext =
      if leb (4 + nonce_len) (length ciphertext) && text_eq (take 4 ciphertext) magic
      then api.aead_decrypt key (take nonce_len (drop 4 ciphertext))
          (drop nonce_len (drop 4 ciphertext))
      else api.decrypt_legacy_age key ciphertext

drop-framed : (nonce ct : Bytes) → drop (length nonce) (nonce ++ ct) ≡ ct
drop-framed [] ct = refl
drop-framed (b ∷ nonce) ct = drop-framed nonce ct

take-framed : (nonce ct : Bytes) → take (length nonce) (nonce ++ ct) ≡ nonce
take-framed [] ct = refl
take-framed (b ∷ nonce) ct = ap (◌∷◌ b) (take-framed nonce ct)

-- What is encrypted under a nonce of 24 bytes is decrypted with the same key.
pub decrypt-encrypt :
    (api : CodecApi) (laws : CodecLaws api) (key nonce plain body : Bytes)
    → length nonce ≡ 24
    → api.aead_encrypt key nonce plain ≡ some body
    → (sealed : Bytes) × ((encrypt api key nonce plain ≡ some sealed)
        × (decrypt api key sealed ≡ some plain))
unfolding encrypt decrypt
decrypt-encrypt api laws key nonce plain body size made =
    let sealed : Bytes = magic ++ (nonce ++ body) in
    let long : leb (4 + nonce_len) (length sealed) ≡ true =
      ground (arith, length-append nonce body, size) in
    let front : take nonce_len (nonce ++ body) ≡ nonce =
      subst (λ n. take n (nonce ++ body) ≡ nonce) size (take-framed nonce body) in
    let behind : drop nonce_len (nonce ++ body) ≡ body =
      subst (λ n. drop n (nonce ++ body) ≡ body) size (drop-framed nonce body) in
    (
      sealed,
      (
        ap (framed nonce) made,
        rw long (
            ap (λ n. api.aead_decrypt key n (drop nonce_len (nonce ++ body))) front
            ∙ ap (api.aead_decrypt key nonce) behind
            ∙ laws.aead_sound key nonce plain body made),
      ),
    )
