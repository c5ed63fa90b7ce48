-- ===== src/Vault/Stored.antt =====
-- crates/jkr/src/host/vault/mod.rs: what a vault gives back.
use tkr.Prelude.{
  ℕ, ◌≡◌, refl, sym, ap, ◌∙◌, Bool, true, false, ◌&&◌, Option, none, some, Text, codes, text_eq,
  length, StdResult, ok, err,
}
use tkr.Table.{get, insert, get-insert, get-insert_other}
use tkr.Mesh.Bytes.{Bytes}
use tkr.Audit.{AuditEvent, JsonApi}
use tkr.Vault.Seal.{SensitivityClass, subkey}
use tkr.Vault.Codec.{CodecApi, CodecLaws, encrypt, decrypt, decrypt-encrypt}
use tkr.Vault.{
  VaultError, HostVault, class_prefix, key_for, record_access, write_with, put_sealed, write,
  event_of, read_with, noted, found_in, opened, read,
}

-- `==` on the classes.
abbrev pub class_eq : SensitivityClass → SensitivityClass → Bool
class_eq SensitivityClass.public SensitivityClass.public = true
class_eq SensitivityClass.private SensitivityClass.private = true
class_eq SensitivityClass.secret SensitivityClass.secret = true
class_eq _ _ = false

-- Two places of the vault share an entry of the store only if they are one.
text_eq-key_for :
    (c d : SensitivityClass) (k l : Text)
    → text_eq (key_for c k) (key_for d l) ≡ class_eq c d && text_eq k l
unfolding key_for class_prefix
text_eq-key_for SensitivityClass.public SensitivityClass.public k l = refl
text_eq-key_for SensitivityClass.public SensitivityClass.private k l = refl
text_eq-key_for SensitivityClass.public SensitivityClass.secret k l = refl
text_eq-key_for SensitivityClass.private SensitivityClass.public k l = refl
text_eq-key_for SensitivityClass.private SensitivityClass.private k l = refl
text_eq-key_for SensitivityClass.private SensitivityClass.secret k l = refl
text_eq-key_for SensitivityClass.secret SensitivityClass.public k l = refl
text_eq-key_for SensitivityClass.secret SensitivityClass.private k l = refl
text_eq-key_for SensitivityClass.secret SensitivityClass.secret k l = refl

module _ (api : CodecApi) (json : JsonApi) where
  record_access-kept :
      (class : SensitivityClass) (event : AuditEvent) (vault : HostVault)
      → ((record_access api json class event vault).sm ≡ vault.sm)
        × ((record_access api json class event vault).store ≡ vault.store)
  unfolding record_access
  record_access-kept SensitivityClass.public event vault = (refl, refl)
  record_access-kept SensitivityClass.private event vault = (refl, refl)
  record_access-kept SensitivityClass.secret event vault = (refl, refl)

  -- What a read gives depends on the keys at hand and the store only.
  unfoldable pub value_at :
      SensitivityClass → Option Bytes → Option Bytes → StdResult (Option Bytes) VaultError
  unfolding decrypt
  value_at class none stored = err (VaultError.vault_sealed class)
  value_at class (some key) stored = found_in api json key stored

  noted-value :
      (class : SensitivityClass) (event : AuditEvent) (found : StdResult (Option Bytes) VaultError)
      (vault : HostVault)
      → (noted api json class event found vault).0 ≡ found
  noted-value class event (err problem) vault = refl
  noted-value class event (ok val) vault = refl

  read-value_at :
      (class : SensitivityClass) (user_key actor : Text) (ts : ℕ) (vault : HostVault)
      → (read api json class user_key actor ts vault).0
        ≡ value_at class (subkey class vault.sm) (get (key_for class user_key) vault.store)
  unfolding read value_at
  read-value_at class user_key actor ts vault = by_key (subkey class vault.sm)
    where
      by_key :
          (key : Option Bytes)
          → (read_with api json class user_key
              (event_of api json actor (codes "read") user_key ts)
              key
              vault).0
            ≡ value_at class key (get (key_for class user_key) vault.store)
      by_key none = refl
      by_key (some k) =
          noted-value class (event_of api json actor (codes "read") user_key ts)
            (found_in api json k (get (key_for class user_key) vault.store)) vault

  write-insert :
      (class : SensitivityClass) (user_key : Text) (val : Bytes) (actor : Text) (nonce : Bytes)
      (ts : ℕ) (vault : HostVault) (key sealed : Bytes)
      → subkey class vault.sm ≡ some key
      → encrypt api key nonce val ≡ some sealed
      → write api json class user_key val actor nonce ts vault ≡ (
        ok tt,
        record_access api json class
            (event_of api json actor (codes "write") user_key ts)
            (record vault { store = insert (key_for class user_key) sealed vault.store }),
      )
  unfolding write
  write-insert class user_key val actor nonce ts vault key sealed held made =
      ap
        (λ k.
          write_with api json class user_key (event_of api json actor (codes "write") user_key ts)
            nonce val k vault)
        held
      ∙ ap
          (λ o.
            put_sealed api json class user_key (event_of api json actor (codes "write") user_key ts)
              o vault)
          made

  module _ (laws : CodecLaws api) where
    -- While the key of a class is at hand, a value that the cipher encrypts under a nonce of 24
    -- bytes is written; whoever reads its place at any later time gets it back; and every other
    -- place, of the class or of another one, reads as before.
    pub read-write :
        (class : SensitivityClass) (user_key : Text) (val : Bytes) (actor : Text) (nonce : Bytes)
        (ts : ℕ) (vault : HostVault) (key body : Bytes) (other : SensitivityClass)
        (place reader : Text) (later : ℕ)
        → subkey class vault.sm ≡ some key
        → length nonce ≡ 24
        → api.aead_encrypt key nonce val ≡ some body
        → class_eq class other && text_eq user_key place ≡ false
        → ((write api json class user_key val actor nonce ts vault).0 ≡ ok tt)
          × ((read api json class user_key reader later
                (write api json class user_key val actor nonce ts vault).1).0
              ≡ ok (some val))
          × ((read api json other place reader later
                (write api json class user_key val actor nonce ts vault).1).0
              ≡ (read api json other place reader later vault).0)
    unfolding value_at
    read-write class user_key val actor nonce ts vault key body other place reader later held size
          made differ =
        let (sealed, codec) = decrypt-encrypt api laws key nonce val body size made in
        let event = event_of api json actor (codes "write") user_key ts in
        let put : HostVault = record vault {
          store = insert (key_for class user_key) sealed vault.store;
        } in
        let wrote =
          write-insert class user_key val actor nonce ts vault key sealed held (codec.0) in
        let after = record_access-kept class event put in
        let written = (write api json class user_key val actor nonce ts vault).1 in
        let sm_after : written.sm ≡ vault.sm = ap (λ w. w.1.sm) wrote ∙ after.0 in
        let store_after : written.store ≡ put.store = ap (λ w. w.1.store) wrote ∙ after.1 in
        (
          ap (λ w. w.0) wrote,
          read-value_at class user_key reader later _
              ∙ ap (λ k. value_at class k (get (key_for class user_key) written.store))
                  (ap (subkey class) sm_after ∙ held)
              ∙ ap (found_in api json key) (
                  ap (get (key_for class user_key)) store_after
                  ∙ get-insert (key_for class user_key) sealed vault.store)
              ∙ ap (opened api json) (codec.1),
          read-value_at other place reader later _
              ∙ ap (λ m. value_at other (subkey other m) (get (key_for other place) written.store))
                  sm_after
              ∙ ap (λ t. value_at other (subkey other vault.sm) t)
                  (ap (get (key_for other place)) store_after
                    ∙ get-insert_other (key_for class user_key) (key_for other place) sealed
                        vault.store (text_eq-key_for class other user_key place ∙ differ))
              ∙ sym (read-value_at other place reader later vault),
        )
