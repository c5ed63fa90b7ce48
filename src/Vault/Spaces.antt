-- ===== src/Vault/Spaces.antt =====
-- `KvImpl` and `FsImpl` of crates/jkr/src/host/vault/storage.rs: the values and files of each plugin. `serde_json` of a value
-- is a parameter.
use tkr.Prelude.{
  ℕ, ◌≡◌, ap, Option, none, some, List, [], ◌∷◌, ◌++◌, Text, codes, append_assoc, StdResult, ok,
  err,
}
use tkr.Mesh.Bytes.{Bytes}
use tkr.Audit.{JsonApi}
use tkr.Vault.Seal.{SensitivityClass}
use tkr.Vault.Codec.{CodecApi}
use tkr.Vault.{VaultError, HostVault, strip_each, list, delete, write, read}

pub record ValueApi : Type 1 where
  pub Value : Type 0
  pub to_vec : Value → Bytes
  pub from_slice : Bytes → Option Value

pub record KvImpl : Type 0 where
  pub plugin : Text
  pub class : SensitivityClass

-- `KvImpl::key`
unfoldable pub kv_key : KvImpl → Text → Text
kv_key kv k = codes "kv/" ++ kv.plugin ++ b'/' ∷ k

module _ (api : CodecApi) (json : JsonApi) (values : ValueApi) where
  abbrev pub parsed : Option values.Value → StdResult (Option values.Value) VaultError
  parsed none = err VaultError.codec
  parsed (some v) = ok (some v)

  abbrev pub value_of :
      StdResult (Option Bytes) VaultError × HostVault
      → StdResult (Option values.Value) VaultError × HostVault
  value_of (err problem, vault) = (err problem, vault)
  value_of (ok none, vault) = (ok none, vault)
  value_of (ok (some z), vault) = (parsed (values.from_slice z), vault)

  unfoldable pub kv_get :
      KvImpl → Text → ℕ → HostVault → StdResult (Option values.Value) VaultError × HostVault
  unfolding kv_key read
  kv_get kv key ts vault = value_of (read api json kv.class (kv_key kv key) kv.plugin ts vault)

  unfoldable pub kv_put :
      KvImpl
      → Text
      → values.Value
      → Bytes
      → ℕ
      → HostVault
      → StdResult (Unit {0}) VaultError × HostVault
  unfolding kv_key write
  kv_put kv key val nonce ts vault =
      write api json kv.class (kv_key kv key) (values.to_vec val) kv.plugin nonce ts vault

unfoldable pub kv_delete : KvImpl → Text → HostVault → HostVault
unfolding kv_key delete
kv_delete kv key vault = delete kv.class (kv_key kv key) vault

unfoldable pub kv_list : KvImpl → Text → HostVault → List Text
unfolding kv_key list strip_each
kv_list kv prefix vault = strip_each (kv_key kv []) (list kv.class (kv_key kv prefix) vault)

pub record FsImpl : Type 0 where
  pub plugin : Text
  pub class : SensitivityClass

pub data FsError : Type 0 where
  vault_error : VaultError → FsError
  no_entry : Text → FsError

-- `FsImpl::key`
unfoldable pub fs_key : FsImpl → Text → Text
fs_key fs path = codes "fs/" ++ fs.plugin ++ b'/' ∷ path

abbrev pub entry_or :
    Text → StdResult (Option Bytes) VaultError × HostVault → StdResult Bytes FsError × HostVault
entry_or path (err problem, vault) = (err (FsError.vault_error problem), vault)
entry_or path (ok none, vault) = (err (FsError.no_entry path), vault)
entry_or path (ok (some z), vault) = (ok z, vault)

abbrev pub mapped_err :
    StdResult (Unit {0}) VaultError × HostVault → StdResult (Unit {0}) FsError × HostVault
mapped_err (err problem, vault) = (err (FsError.vault_error problem), vault)
mapped_err (ok done, vault) = (ok done, vault)

module _ (api : CodecApi) (json : JsonApi) where
  unfoldable pub fs_read : FsImpl → Text → ℕ → HostVault → StdResult Bytes FsError × HostVault
  unfolding fs_key read
  fs_read fs path ts vault =
      entry_or path (read api json fs.class (fs_key fs path) fs.plugin ts vault)

  unfoldable pub fs_write :
      FsImpl → Text → Bytes → Bytes → ℕ → HostVault → StdResult (Unit {0}) FsError × HostVault
  unfolding fs_key write
  fs_write fs path content nonce ts vault =
      mapped_err (write api json fs.class (fs_key fs path) content fs.plugin nonce ts vault)

unfoldable pub fs_list : FsImpl → Text → HostVault → List Text
unfolding fs_key list strip_each
fs_list fs prefix vault = strip_each (fs_key fs []) (list fs.class (fs_key fs prefix) vault)

-- A plugin whose name has a slash shares the keys of the plugin named by what is before it.
pub kv_key-shared :
    (class : SensitivityClass) (front behind key : Text)
    → kv_key (record { plugin = front ++ b'/' ∷ behind; class = class }) key
      ≡ kv_key (record { plugin = front; class = class }) (behind ++ b'/' ∷ key)
unfolding kv_key
kv_key-shared class front behind key =
    ap (λ s. codes "kv/" ++ s) (append_assoc front (b'/' ∷ behind) (b'/' ∷ key))
