-- ===== src/Filter/Coalesce/Sources.antt =====
-- What the runs of `compile_group` (crates/jkr-filter/src/rules.rs) are compiled from.
use tkr.Prelude.{
  ◌≤◌, ◌≡◌, refl, ap, ◌∙◌, Option, none, some, List, [], ◌∷◌, ◌++◌, map, Text, length, arith,
}
use tkr.Filter.Regex.{RegexApi, new_each}
use tkr.Filter.Rule.{Rule}
use tkr.Filter.Compiled.{CompiledRule}
use tkr.Filter.Apply.Words.{CaseApi}
use tkr.Filter.Compile.{
  Result, ok, err, ◌>>=◌, built, take_suppress, take_truncate, compile, compile_pairs,
}
use tkr.Filter.Coalesce.Related.{single_suppress, single_truncate}

-- A chain that succeeds has a first step that succeeds, and a rest that does.
pub succeeded {ℓ κ} :
    {T : Type ℓ} {U : Type κ} (first : Result T) (rest : T → Result U) {u : U}
    → (first >>= rest) ≡ ok u
    → (t : T) × (first ≡ ok t) × (rest t ≡ ok u)
succeeded (err problem) rest done = cc
succeeded (ok t) rest done = (t, refl, done)

-- Inversion of `do a ← m; as ← ms; ok (a ∷ as)`.
pub cons-eq-ok {ℓ} :
    {A : Type ℓ} (m : Result A) (ms : Result (List A)) {out : List A}
    → (m >>= λ a. ms >>= λ rest. ok (a ∷ rest)) ≡ ok out
    → (a : A) × (rest : List A) × (m ≡ ok a) × (ms ≡ ok rest) × (out ≡ a ∷ rest)
cons-eq-ok (ok a) (ok rest) h = (a, rest, refl, refl, cc)
cons-eq-ok (ok a) (err e) h = cc
cons-eq-ok (err e) ms h = cc

pub ok-injective {ℓ} : {A : Type ℓ} {a b : A} → ◌≡◌ {A = Result A} (ok a) (ok b) → a ≡ b
ok-injective h = cc

new_each-cons :
    {Re : Type 0} (new : Text → Option Re) (p : Text) (ps : List Text) (re : Re) (res : List Re)
    → new p ≡ some re
    → new_each new ps ≡ some res
    → new_each new (p ∷ ps) ≡ some (re ∷ res)
unfolding new_each
new_each-cons new p ps re res h k = ground arith

pub built-eq-ok {ℓ} : {A : Type ℓ} (o : Option A) {a : A} → built o ≡ ok a → o ≡ some a
built-eq-ok none h = cc
built-eq-ok (some a) h = cc

abbrev pub truncate_rule : Text × Text → Rule
truncate_rule p = Rule.truncate_match p.0 p.1

-- The rules of a run and the rest are the rules.
pub take_suppress_lem :
    (rules : List Rule)
    → (map Rule.suppress_regex (take_suppress rules).0 ++ (take_suppress rules).1 ≡ rules)
      × (length (take_suppress rules).1 ≤ length rules)
unfolding take_suppress
take_suppress_lem (Rule.suppress_regex p ∷ rules) =
    let (whole, shorter) = take_suppress_lem rules in
    (ap (◌∷◌ (Rule.suppress_regex p)) whole, omega arith)
take_suppress_lem [] = (refl, omega arith)
take_suppress_lem (_ ∷ rules) = (refl, omega arith)

pub take_truncate_lem :
    (rules : List Rule)
    → (map truncate_rule (take_truncate rules).0 ++ (take_truncate rules).1 ≡ rules)
      × (length (take_truncate rules).1 ≤ length rules)
unfolding take_truncate
take_truncate_lem (Rule.truncate_match p t ∷ rules) =
    let (whole, shorter) = take_truncate_lem rules in
    (ap (◌∷◌ (Rule.truncate_match p t)) whole, omega arith)
take_truncate_lem [] = (refl, omega arith)
take_truncate_lem (_ ∷ rules) = (refl, omega arith)

module _ (case : CaseApi) (api : RegexApi) where
  open api use {Re, ReSet, new}

  abbrev Rules : Type 0
  Rules = List (CompiledRule Re ReSet)

  -- Each rule compiled by itself, in order: the group without coalescing.
  unfoldable pub compile_each : List Rule → Result (List (CompiledRule Re ReSet))
  compile_each [] = ok []
  compile_each (rule ∷ rules) = do
    compiled ← compile case api rule
    out ← compile_each rules
    ok (compiled ∷ out)

  pub compile_each-cons :
      (rule : Rule) (rules : List Rule) (out : Rules)
      → compile_each (rule ∷ rules) ≡ ok out
      → (compiled : CompiledRule Re ReSet) × (rest : Rules) × (compile case api rule ≡ ok compiled)
        × (compile_each rules ≡ ok rest)
        × (out ≡ compiled ∷ rest)
  unfolding compile_each
  compile_each-cons rule rules out h = cons-eq-ok (compile case api rule) (compile_each rules) h

  pub compile_each-suppress :
      (patterns : List Text) (rest : List Rule) (out : Rules)
      → compile_each (map Rule.suppress_regex patterns ++ rest) ≡ ok out
      → (res : List Re) × (out' : Rules) × (new_each new patterns ≡ some res)
        × (compile_each rest ≡ ok out')
        × (out ≡ map (single_suppress case api) res ++ out')
  unfolding new_each compile
  compile_each-suppress [] rest out h = ([], out, refl, h, refl)
  compile_each-suppress (p ∷ patterns) rest out h =
      let (compiled, out₁, made, each, e) =
        compile_each-cons (Rule.suppress_regex p) (map Rule.suppress_regex patterns ++ rest) out
          h in
      let (res, out', news, each', e') = compile_each-suppress patterns rest out₁ each in
      let (re, built_re, made') = succeeded (built (new p)) _ made in
      (
        re ∷ res,
        out',
        new_each-cons new p patterns re res (built-eq-ok (new p) built_re) news,
        each',
        cc,
      )

  compile_pairs-cons :
      (p t : Text) (pairs : List (Text × Text)) (re : Re) (rules : List (Re × Text))
      → built (new p) ≡ ok re
      → compile_pairs case api pairs ≡ ok rules
      → compile_pairs case api ((p, t) ∷ pairs) ≡ ok ((re, t) ∷ rules)
  unfolding compile_pairs
  compile_pairs-cons p t pairs re rules h k = rw (h, k)

  pub compile_each-truncate :
      (pairs : List (Text × Text)) (rest : List Rule) (out : Rules)
      → compile_each (map truncate_rule pairs ++ rest) ≡ ok out
      → (rules : List (Re × Text)) × (out' : Rules) × (compile_pairs case api pairs ≡ ok rules)
        × (compile_each rest ≡ ok out')
        × (out ≡ map (single_truncate case api) rules ++ out')
  unfolding compile_pairs compile
  compile_each-truncate [] rest out h = ([], out, refl, h, refl)
  compile_each-truncate ((p, t) ∷ pairs) rest out h =
      let (compiled, out₁, made, each, e) =
        compile_each-cons (Rule.truncate_match p t) (map truncate_rule pairs ++ rest) out h in
      let (rules, out', news, each', e') = compile_each-truncate pairs rest out₁ each in
      let (re, built_re, made') = succeeded (built (new p)) _ made in
      ((re, t) ∷ rules, out', compile_pairs-cons p t pairs re rules built_re news, each', cc)

  pub new_each-compile_pairs :
      (pairs : List (Text × Text)) (rules : List (Re × Text))
      → compile_pairs case api pairs ≡ ok rules
      → new_each new (map (λ p. p.0) pairs) ≡ some (map (λ r. r.0) rules)
  unfolding new_each compile_pairs
  new_each-compile_pairs [] rules h =
      ap (λ rs. some (map (λ (r : Re × Text). r.0) rs)) (ok-injective h)
  new_each-compile_pairs ((p, t) ∷ pairs) rules h =
      let (re, built_re, h') = succeeded (built (new p)) _ h in
      let (rest, each, h'') = succeeded (compile_pairs case api pairs) _ h' in
      new_each-cons new p (map (λ q. q.0) pairs) re (map (λ r. r.0) rest)
        (built-eq-ok (new p) built_re) (new_each-compile_pairs pairs rest each)
      ∙ ap (λ rs. some (map (λ (r : Re × Text). r.0) rs)) (ok-injective h'')
