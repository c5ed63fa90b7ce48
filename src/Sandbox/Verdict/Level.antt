-- ===== src/Sandbox/Verdict/Level.antt =====
-- crates/jkr-sandbox/src/capture/verdict.rs: the level of a verdict, described without its flags.
use tkr.Prelude.{
  ℕ, ◌≡◌, refl, ap, ◌∙◌, Bool, true, false, not, ◌&&◌, ◌||◌, List, [], ◌∷◌, ◌++◌, Text, any, leb,
  if◌then◌else◌, if_cases, arith,
}
use tkr.Sandbox.Trace.{FileEvent, NetEvent, VerdictLevel, Flag}
use tkr.Sandbox.Verdict.{
  is_sensitive, sensitive_flag, outside_flag, egress_flag, storm_flag, writes_outside, file_flags,
  external_count, egress_flags, denied_of, storm_flags, max_level, fold_level, compute_verdict,
  egress_host_suspicious, denied_storm,
}

-- An allowed access to a sensitive path, or a write outside the roots.
unfoldable pub is_breach : List Text → FileEvent → Bool
is_breach roots f = f.allowed && is_sensitive f.path || writes_outside roots f

unfoldable pub is_attempt : FileEvent → Bool
is_attempt f = not f.allowed && is_sensitive f.path

unfoldable pub level_of : Bool → Bool → VerdictLevel
level_of grave mild =
    if grave
    then VerdictLevel.suspicious
    else if mild
    then VerdictLevel.notable
    else VerdictLevel.clean

max_level-level_of :
    (a b c d : Bool) → max_level (level_of a b) (level_of c d) ≡ level_of (a || c) (b || d)
unfolding max_level level_of
max_level-level_of true b c d = refl
max_level-level_of false true true d = refl
max_level-level_of false false true d = refl
max_level-level_of false true false true = refl
max_level-level_of false true false false = refl
max_level-level_of false false false true = refl
max_level-level_of false false false false = refl

fold_level-append :
    (acc : VerdictLevel) (before after : List Flag)
    → fold_level acc (before ++ after) ≡ fold_level (fold_level acc before) after
unfolding fold_level
fold_level-append acc [] after = refl
fold_level-append acc (f ∷ before) after = fold_level-append (max_level acc f.severity) before after

-- A flag that is raised or not, after a level.
fold_level-flag :
    (a b g m raised : Bool) (flag : Flag)
    → flag.severity ≡ level_of g m
    → fold_level (level_of a b) (if raised then flag ∷ [] else [])
      ≡ level_of (a || g && raised) (b || m && raised)
unfolding fold_level max_level level_of
fold_level-flag a b g m raised flag e =
    if_cases
      (λ flags. fold_level (level_of a b) flags ≡ level_of (a || g && raised) (b || m && raised))
      raised (flag ∷ []) []
      (λ yes. rw yes (ap (max_level (level_of a b)) e ∙ max_level-level_of a b g m ∙ ground arith))
      (λ no. ground arith)

-- Two flags, each raised or not, before the rest of a list.
fold_level-two :
    (a b g m raised g' m' raised' : Bool) (flag flag' : Flag) (rest : List Flag)
    → flag.severity ≡ level_of g m
    → flag'.severity ≡ level_of g' m'
    → fold_level
        (level_of a b)
        ((if raised then flag ∷ [] else []) ++ ((if raised' then flag' ∷ [] else []) ++ rest))
      ≡ fold_level
          (level_of ((a || g && raised) || g' && raised') ((b || m && raised) || m' && raised'))
          rest
fold_level-two a b g m raised g' m' raised' flag flag' rest e e' =
    fold_level-append (level_of a b) (if raised then flag ∷ [] else []) (second ++ rest)
    ∙ ap (λ l. fold_level l (second ++ rest)) (fold_level-flag a b g m raised flag e)
    ∙ fold_level-append (level_of (a || g && raised) (b || m && raised)) second rest
    ∙ ap (λ l. fold_level l rest)
        (fold_level-flag (a || g && raised) (b || m && raised) g' m' raised' flag' e')
  where
    second : List Flag
    second = if raised' then flag' ∷ [] else []

sensitive_flag-severity :
    (f : FileEvent) → (sensitive_flag f).severity ≡ level_of f.allowed (not f.allowed)
unfolding level_of
sensitive_flag-severity f = ground arith

or_regroup : (a b c d : Bool) → ((a || b) || c) || d ≡ a || ((b || c) || d)
or_regroup true b c d = refl
or_regroup false b c d = refl

or_false : (b : Bool) → b || false ≡ b
or_false true = refl
or_false false = refl

fold_level-file_flags :
    (a b : Bool) (roots : List Text) (files : List FileEvent)
    → fold_level (level_of a b) (file_flags roots files)
      ≡ level_of (a || any (is_breach roots) files) (b || any is_attempt files)
unfolding fold_level file_flags is_breach is_attempt level_of
fold_level-file_flags a b roots [] = ground arith
fold_level-file_flags a b roots (f ∷ files) =
    let attempt = not f.allowed && is_sensitive f.path in
    let read = f.allowed && is_sensitive f.path in
    let outside = writes_outside roots f in
    fold_level-two a b f.allowed (not f.allowed) (is_sensitive f.path) true false outside
      (sensitive_flag f) (outside_flag f) (file_flags roots files) (sensitive_flag-severity f) refl
    ∙ fold_level-file_flags ((a || read) || outside) ((b || attempt) || false) roots files
    ∙ ap (λ grave. level_of grave (((b || attempt) || false) || any is_attempt files))
        (or_regroup a read outside (any (is_breach roots) files))
    ∙ ap (level_of (a || any (is_breach roots) (f ∷ files))) (
        or_regroup b attempt false (any is_attempt files)
        ∙ ap (λ seen. b || (seen || any is_attempt files)) (or_false attempt))

fold_level-totals :
    (a b : Bool) (external denied : ℕ)
    → fold_level (level_of a b) (egress_flags external ++ storm_flags denied)
      ≡ level_of
          (a || leb egress_host_suspicious external)
          (b || leb 1 external || leb denied_storm denied)
unfolding egress_flags storm_flags level_of
fold_level-totals a b external denied =
    let many = leb egress_host_suspicious external in
    let grave = a || many && leb 1 external in
    let mild = b || true && leb 1 external in
    fold_level-append (level_of a b) (egress_flags external) (storm_flags denied)
    ∙ ap (λ l. fold_level l (storm_flags denied))
        (fold_level-flag a b many true (leb 1 external) (egress_flag external) refl)
    ∙ fold_level-flag grave mild false true (leb denied_storm denied) (storm_flag denied) refl
    ∙ ground arith

-- Whatever the files, connections and roots, the verdict is suspicious if some allowed access was
-- to a sensitive path, some allowed write was to a path beginning with no root, or at least five
-- allowed connections were not to the loopback; else notable if some denied access was to a
-- sensitive path, at least one allowed connection was not to the loopback, or the counts of the
-- denied events, summed in 32 bits, reach fifty; else clean.
pub compute_verdict-level :
    (files : List FileEvent) (net : List NetEvent) (roots : List Text)
    → (compute_verdict files net roots).level ≡ (
        if any (is_breach roots) files || leb egress_host_suspicious (external_count net)
        then VerdictLevel.suspicious
        else if any is_attempt files
            || leb 1 (external_count net)
            || leb denied_storm (denied_of files net)
        then VerdictLevel.notable
        else VerdictLevel.clean)
unfolding compute_verdict level_of egress_flags storm_flags
compute_verdict-level files net roots =
    let breach = any (is_breach roots) files in
    let attempt = any is_attempt files in
    let external = external_count net in
    let flags = egress_flags external ++ storm_flags (denied_of files net) in
    fold_level-append VerdictLevel.clean (file_flags roots files) flags
    ∙ ap (λ l. fold_level l flags) (fold_level-file_flags false false roots files)
    ∙ fold_level-totals breach attempt external (denied_of files net)
