-- ===== src/Sandbox/Verdict.antt =====
-- crates/jkr-sandbox/src/capture/verdict.rs: the verdict on what was seen.
pub mod Level
use tkr.Prelude.{
  ℕ, ◌+◌, Bool, true, false, not, ◌&&◌, ◌||◌, List, [], ◌∷◌, ◌++◌, Text, codes, any, length,
  contains, ends_with, starts_with, to_ascii_lowercase, decimal, leb, if◌then◌else◌, u32,
}
use tkr.Sandbox.Trace.{FileEvent, FileOp, op_eq, NetEvent, VerdictLevel, Flag, Verdict}

abbrev pub sensitive_markers : List Text
sensitive_markers =
    codes "/.ssh/"
    ∷ codes "/.aws/"
    ∷ codes "/.config/gh/"
    ∷ codes "/etc/shadow"
    ∷ codes "/.gnupg/"
    ∷ codes "login.keychain"
    ∷ codes "/.netrc"
    ∷ []

abbrev pub sensitive_suffixes : List Text
sensitive_suffixes = codes ".pem" ∷ codes ".env" ∷ []

unfoldable pub is_sensitive : Text → Bool
unfolding to_ascii_lowercase contains ends_with
is_sensitive path =
    let p = to_ascii_lowercase path in
    any (λ m. contains p m) sensitive_markers || any (λ s. ends_with p s) sensitive_suffixes

unfoldable pub is_loopback : Text → Bool
unfolding starts_with
is_loopback addr =
    starts_with addr (codes "127.")
    || starts_with addr (codes "[::1]")
    || starts_with addr (codes "::1")

unfoldable pub max_level : VerdictLevel → VerdictLevel → VerdictLevel
max_level VerdictLevel.suspicious _ = VerdictLevel.suspicious
max_level _ VerdictLevel.suspicious = VerdictLevel.suspicious
max_level VerdictLevel.notable _ = VerdictLevel.notable
max_level _ VerdictLevel.notable = VerdictLevel.notable
max_level _ _ = VerdictLevel.clean

-- The comments on the two bounds say above; the tests below say from the bound on, and the first counts
-- connections, not distinct hosts.
abbrev pub egress_host_suspicious : ℕ
egress_host_suspicious = 5

abbrev pub denied_storm : ℕ
denied_storm = 50

abbrev pub sensitive_flag : FileEvent → Flag
sensitive_flag f =
    if f.allowed
    then (record {
      kind = codes "sensitive_path";
      severity = VerdictLevel.suspicious;
      detail = codes "read " ++ f.path;
    })
    else (record {
      kind = codes "sensitive_path";
      severity = VerdictLevel.notable;
      detail = codes "attempted (denied) read of " ++ f.path;
    })

abbrev pub outside_flag : FileEvent → Flag
outside_flag f = record {
  kind = codes "write_outside_cwd";
  severity = VerdictLevel.suspicious;
  detail = codes "allowed write outside declared roots: " ++ f.path;
}

-- An allowed write to a path that begins with none of the roots.
unfoldable pub writes_outside : List Text → FileEvent → Bool
unfolding starts_with
writes_outside writable_roots f =
    f.allowed
    && op_eq f.op FileOp.write
    && not (any (λ root. starts_with f.path root) writable_roots)

unfoldable pub file_flags : List Text → List FileEvent → List Flag
unfolding is_sensitive writes_outside
file_flags writable_roots [] = []
file_flags writable_roots (f ∷ files) =
    let sensitive : List Flag = if is_sensitive f.path then sensitive_flag f ∷ [] else [] in
    let outside : List Flag = if writes_outside writable_roots f then outside_flag f ∷ [] else [] in
    sensitive ++ (outside ++ file_flags writable_roots files)

-- The number of allowed connections that do not go to the loopback.
unfoldable pub external_count : List NetEvent → ℕ
unfolding is_loopback
external_count [] = 0
external_count (n ∷ net) =
    if n.allowed && not (is_loopback n.addr) then external_count net + 1 else external_count net

abbrev pub egress_flag : ℕ → Flag
egress_flag external = record {
  kind = codes "egress";
  severity =
      if leb egress_host_suspicious external then VerdictLevel.suspicious else VerdictLevel.notable;
  detail = decimal external ++ codes " external connection(s)";
}

unfoldable pub egress_flags : ℕ → List Flag
egress_flags external = if leb 1 external then egress_flag external ∷ [] else []

-- The sums wrap around at 32 bits.
unfoldable pub denied_files : List FileEvent → ℕ
denied_files [] = 0
denied_files (f ∷ files) =
    let rest = denied_files files in if f.allowed then rest else u32 (f.count + rest)

unfoldable pub denied_net : List NetEvent → ℕ
denied_net [] = 0
denied_net (n ∷ net) = let rest = denied_net net in if n.allowed then rest else u32 (n.count + rest)

unfoldable pub denied_of : List FileEvent → List NetEvent → ℕ
unfolding denied_files denied_net
denied_of files net = u32 (denied_files files + denied_net net)

abbrev pub storm_flag : ℕ → Flag
storm_flag denied = record {
  kind = codes "denied_storm";
  severity = VerdictLevel.notable;
  detail = decimal denied ++ codes " denied operations";
}

unfoldable pub storm_flags : ℕ → List Flag
storm_flags denied = if leb denied_storm denied then storm_flag denied ∷ [] else []

unfoldable pub fold_level : VerdictLevel → List Flag → VerdictLevel
unfolding max_level
fold_level acc [] = acc
fold_level acc (f ∷ flags) = fold_level (max_level acc f.severity) flags

unfoldable pub compute_verdict : List FileEvent → List NetEvent → List Text → Verdict
unfolding file_flags external_count egress_flags denied_of storm_flags fold_level
compute_verdict files net writable_roots =
    let flags =
      file_flags writable_roots files
      ++ (egress_flags (external_count net) ++ storm_flags (denied_of files net)) in
    record { level = fold_level VerdictLevel.clean flags; flags = flags }
