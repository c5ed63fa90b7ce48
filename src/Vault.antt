-- ===== src/Vault.antt =====
-- crates/jkr/src/host/vault: the vault over the store in memory, with the codec of age_codec.rs. The
-- AEAD cipher, the codec of older files and HKDF are parameters; a nonce and the time are arguments.
pub mod Seal
pub mod Codec
pub mod Stored
pub mod Spaces
use tkr.Prelude.{
  ℕ, Bool, true, false, Option, none, some, List, [], ◌∷◌, ◌++◌, Text, codes, starts_with, drop,
  length, if◌then◌else◌, StdResult, ok, err,
}
use tkr.Table.{Table, get, insert, remove}
use tkr.Mesh.Bytes.{Bytes}
use tkr.Audit.{AuditEvent, AuditLog, JsonApi, append}
use tkr.Vault.Seal.{
  SensitivityClass, SealStateMachine, sealed_with, auto_unseal, full_unseal, seal, subkey,
}
use tkr.Vault.Codec.{CodecApi, encrypt, decrypt}

pub data VaultError : Type 0 where
  vault_sealed : SensitivityClass → VaultError
  codec : VaultError

pub record HostVault : Type 0 where
  pub sm : SealStateMachine
  -- `MemStore`
  pub store : Table Bytes
  pub audit : Option AuditLog

unfoldable pub class_prefix : SensitivityClass → Text
class_prefix SensitivityClass.public = codes "public"
class_prefix SensitivityClass.private = codes "private"
class_prefix SensitivityClass.secret = codes "secret"

unfoldable pub key_for : SensitivityClass → Text → Text
unfolding class_prefix
key_for class user_key = class_prefix class ++ b'/' ∷ user_key

-- MemStore::list: the keys with the prefix, in the order of the table.
unfoldable pub keys_with : Text → Table Bytes → List Text
unfolding starts_with
keys_with prefix [] = []
keys_with prefix ((k, _) ∷ table) =
    let rest = keys_with prefix table in if starts_with k prefix then k ∷ rest else rest

-- `filter_map` of `strip_prefix`.
unfoldable pub strip_each : Text → List Text → List Text
unfolding starts_with
strip_each prefix [] = []
strip_each prefix (k ∷ keys) =
    let rest = strip_each prefix keys in
    if starts_with k prefix then drop (length prefix) k ∷ rest else rest

unfoldable pub list : SensitivityClass → Text → HostVault → List Text
unfolding keys_with strip_each class_prefix
list class prefix vault =
    strip_each (class_prefix class ++ b'/' ∷ [])
      (keys_with (class_prefix class ++ b'/' ∷ prefix) vault.store)

unfoldable pub delete : SensitivityClass → Text → HostVault → HostVault
unfolding key_for remove
delete class user_key vault = record vault { store = remove (key_for class user_key) vault.store }

unfoldable pub seal_vault : HostVault → HostVault
unfolding seal
seal_vault vault = record vault { sm = seal vault.sm }

module _ (api : CodecApi) (json : JsonApi) where
  -- `HostVault::new`
  unfoldable pub new_vault : Table Bytes → Bytes → HostVault
  unfolding auto_unseal
  new_vault store master = record { sm = auto_unseal api.hkdf master; store = store; audit = none }

  unfoldable pub unseal_full : HostVault → HostVault
  unfolding full_unseal
  unseal_full vault = record vault { sm = full_unseal api.hkdf vault.sm }

  abbrev pub log_to : AuditEvent → Option AuditLog → Option AuditLog
  log_to event none = none
  log_to event (some log) = some (append json event log)

  -- Only accesses to secrets are logged.
  unfoldable pub record_access : SensitivityClass → AuditEvent → HostVault → HostVault
  unfolding append
  record_access SensitivityClass.secret event vault = record vault {
    audit = log_to event vault.audit;
  }
  record_access _ event vault = vault

  abbrev pub put_sealed :
      SensitivityClass
      → Text
      → AuditEvent
      → Option Bytes
      → HostVault
      → StdResult (Unit {0}) VaultError × HostVault
  put_sealed class user_key event none vault = (err VaultError.codec, vault)
  put_sealed class user_key event (some sealed) vault = (
    ok tt,
    record_access class event
        (record vault { store = insert (key_for class user_key) sealed vault.store }),
  )

  abbrev pub write_with :
      SensitivityClass
      → Text
      → AuditEvent
      → Bytes
      → Bytes
      → Option Bytes
      → HostVault
      → StdResult (Unit {0}) VaultError × HostVault
  write_with class user_key event nonce val none vault =
      (err (VaultError.vault_sealed class), vault)
  write_with class user_key event nonce val (some key) vault =
      put_sealed class user_key event (encrypt api key nonce val) vault

  abbrev pub event_of : Text → Text → Text → ℕ → AuditEvent
  event_of actor op user_key ts = record { actor = actor; op = op; key = user_key; ts = ts }

  unfoldable pub write :
      SensitivityClass
      → Text
      → Bytes
      → Text
      → Bytes
      → ℕ
      → HostVault
      → StdResult (Unit {0}) VaultError × HostVault
  unfolding subkey encrypt insert key_for record_access
  write class user_key val actor nonce ts vault =
      write_with class user_key (event_of actor (codes "write") user_key ts) nonce val
        (subkey class vault.sm) vault

  abbrev pub opened : Option Bytes → StdResult (Option Bytes) VaultError
  opened none = err VaultError.codec
  opened (some val) = ok (some val)

  abbrev pub found_in : Bytes → Option Bytes → StdResult (Option Bytes) VaultError
  found_in key none = ok none
  found_in key (some sealed) = opened (decrypt api key sealed)

  -- A failure to decrypt ends the read before the log.
  abbrev pub noted :
      SensitivityClass
      → AuditEvent
      → StdResult (Option Bytes) VaultError
      → HostVault
      → StdResult (Option Bytes) VaultError × HostVault
  noted class event (err problem) vault = (err problem, vault)
  noted class event (ok val) vault = (ok val, record_access class event vault)

  abbrev pub read_with :
      SensitivityClass
      → Text
      → AuditEvent
      → Option Bytes
      → HostVault
      → StdResult (Option Bytes) VaultError × HostVault
  read_with class user_key event none vault = (err (VaultError.vault_sealed class), vault)
  read_with class user_key event (some key) vault =
      noted class event (found_in key (get (key_for class user_key) vault.store)) vault

  unfoldable pub read :
      SensitivityClass
      → Text
      → Text
      → ℕ
      → HostVault
      → StdResult (Option Bytes) VaultError × HostVault
  unfolding subkey decrypt get key_for record_access
  read class user_key actor ts vault =
      read_with class user_key (event_of actor (codes "read") user_key ts) (subkey class vault.sm)
        vault
