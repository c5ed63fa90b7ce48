-- ===== src/Sandbox/Policy.antt =====
-- crates/jkr-sandbox/src/policy.rs: the policy and its builder. A path is its text; on Unix it is
-- absolute if it begins with a slash.
use tkr.Prelude.{
  ℕ, Bool, false, Option, none, some, List, [], ◌∷◌, ◌++◌, Text, codes, ◌==◌, if◌then◌else◌,
  StdResult, ok, err,
}

pub data NetworkPolicy : Type 0 where
  inherit deny_all : NetworkPolicy
  -- the ports to connect to, and those to bind
  allow : List ℕ → List ℕ → NetworkPolicy

pub record SandboxLimits : Type 0 where
  pub memory_bytes : Option ℕ
  pub cpu_seconds : Option ℕ
  pub file_size_bytes : Option ℕ
  pub max_output_bytes : Option ℕ
  pub timeout_ms : Option ℕ
  pub network : NetworkPolicy

abbrev pub default_limits : SandboxLimits
default_limits = record {
  memory_bytes = none;
  cpu_seconds = none;
  file_size_bytes = none;
  max_output_bytes = none;
  timeout_ms = none;
  network = NetworkPolicy.inherit;
}

pub record SandboxPolicy : Type 0 where
  pub fs_read : List Text
  pub fs_write : List Text
  pub disabled : Bool
  pub env_allow : List Text
  pub limits : SandboxLimits

-- `deny_all` and `builder`
abbrev pub default_policy : SandboxPolicy
default_policy = record {
  fs_read = [];
  fs_write = [];
  disabled = false;
  env_allow = [];
  limits = default_limits;
}

-- Path::is_absolute
unfoldable pub is_absolute : Text → Bool
is_absolute [] = false
is_absolute (c ∷ _) = c == b'/'

unfoldable pub check_paths : List Text → StdResult (Unit {0}) Text
unfolding is_absolute
check_paths [] = ok tt
check_paths (p ∷ ps) =
    let rest = check_paths ps in
    if is_absolute p then rest else err (codes "policy paths must be absolute: " ++ p)

unfoldable pub validate : SandboxPolicy → StdResult (Unit {0}) Text
unfolding check_paths
validate policy = check_paths (policy.fs_read ++ policy.fs_write)

-- The methods of `PolicyBuilder`, each with what it sets.
pub data Setting : Type 0 where
  allow_read allow_write allow_env : Text → Setting
  memory_bytes cpu_seconds file_size_bytes max_output_bytes timeout_ms : ℕ → Setting
  deny_network : Setting
  allow_tcp_connect allow_tcp_bind : ℕ → Setting

unfoldable pub connect_port : ℕ → NetworkPolicy → NetworkPolicy
connect_port port (NetworkPolicy.allow connect bind) =
    NetworkPolicy.allow (connect ++ port ∷ []) bind
connect_port port _ = NetworkPolicy.allow (port ∷ []) []

unfoldable pub bind_port : ℕ → NetworkPolicy → NetworkPolicy
bind_port port (NetworkPolicy.allow connect bind) = NetworkPolicy.allow connect (bind ++ port ∷ [])
bind_port port _ = NetworkPolicy.allow [] (port ∷ [])

unfoldable pub set_limit : Setting → SandboxLimits → SandboxLimits
unfolding connect_port bind_port
set_limit (Setting.memory_bytes n) l = record l { memory_bytes = some n }
set_limit (Setting.cpu_seconds n) l = record l { cpu_seconds = some n }
set_limit (Setting.file_size_bytes n) l = record l { file_size_bytes = some n }
set_limit (Setting.max_output_bytes n) l = record l { max_output_bytes = some n }
set_limit (Setting.timeout_ms n) l = record l { timeout_ms = some n }
set_limit Setting.deny_network l = record l { network = NetworkPolicy.deny_all }
set_limit (Setting.allow_tcp_connect port) l = record l { network = connect_port port l.network }
set_limit (Setting.allow_tcp_bind port) l = record l { network = bind_port port l.network }
set_limit _ l = l

unfoldable pub set : Setting → SandboxPolicy → SandboxPolicy
unfolding set_limit
set (Setting.allow_read p) policy = record policy { fs_read = policy.fs_read ++ p ∷ [] }
set (Setting.allow_write p) policy = record policy { fs_write = policy.fs_write ++ p ∷ [] }
set (Setting.allow_env name) policy = record policy { env_allow = policy.env_allow ++ name ∷ [] }
set other policy = record policy { limits = set_limit other policy.limits }

-- A chain of builder calls.
unfoldable pub build : List Setting → SandboxPolicy → SandboxPolicy
unfolding set
build [] policy = policy
build (s ∷ settings) policy = build settings (set s policy)
