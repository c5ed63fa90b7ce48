-- ===== src/Vault/Seal.antt =====
-- crates/jkr/src/host/vault/seal.rs and crates/jkr-api/src/vault.rs: which keys are at hand. HKDF is a
-- parameter.
use tkr.Prelude.{Bool, true, false, ◌&&◌, Option, none, some, Text, codes}
use tkr.Mesh.Bytes.{Bytes}

pub data SensitivityClass : Type 0 where
  public private secret : SensitivityClass

pub data SealState : Type 0 where
  sealed auto_unsealed fully_unsealed : SealState

unfoldable pub info : SensitivityClass → Text
info SensitivityClass.public = codes "jkr.vault.subkey.public"
info SensitivityClass.private = codes "jkr.vault.subkey.private"
info SensitivityClass.secret = codes "jkr.vault.subkey.secret"

pub record SealStateMachine : Type 0 where
  pub master : Bytes
  pub pub_key : Option Bytes
  pub priv_key : Option Bytes
  pub sec_key : Option Bytes

abbrev pub is_some {ℓ} : {A : Type ℓ} → Option A → Bool
is_some none = false
is_some (some _) = true

-- `SealStateMachine::sealed`
abbrev pub sealed_with : Bytes → SealStateMachine
sealed_with master = record { master = master; pub_key = none; priv_key = none; sec_key = none }

abbrev pub or_derived : Option Bytes → Bytes → Option Bytes
or_derived (some key) _ = some key
or_derived none key = some key

module _ (hkdf : Bytes → Text → Bytes) where
  unfoldable pub derive_subkey : Bytes → SensitivityClass → Bytes
  unfolding info
  derive_subkey master class = hkdf master (info class)

  unfoldable pub auto_unseal : Bytes → SealStateMachine
  unfolding derive_subkey
  auto_unseal master = record (sealed_with master) {
    pub_key = some (derive_subkey master SensitivityClass.public);
  }

  unfoldable pub full_unseal : SealStateMachine → SealStateMachine
  unfolding derive_subkey
  full_unseal m = record m {
    pub_key = or_derived m.pub_key (derive_subkey m.master SensitivityClass.public);
    priv_key = or_derived m.priv_key (derive_subkey m.master SensitivityClass.private);
    sec_key = or_derived m.sec_key (derive_subkey m.master SensitivityClass.secret);
  }

unfoldable pub seal : SealStateMachine → SealStateMachine
seal m = record m { pub_key = none; priv_key = none; sec_key = none }

abbrev pub state_of : Bool → Bool → SealState
state_of false _ = SealState.sealed
state_of true false = SealState.auto_unsealed
state_of true true = SealState.fully_unsealed

unfoldable pub state : SealStateMachine → SealState
state m = state_of (is_some m.pub_key) (is_some m.priv_key && is_some m.sec_key)

unfoldable pub subkey : SensitivityClass → SealStateMachine → Option Bytes
subkey SensitivityClass.public m = m.pub_key
subkey SensitivityClass.private m = m.priv_key
subkey SensitivityClass.secret m = m.sec_key
