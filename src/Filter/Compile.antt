-- ===== src/Filter/Compile.antt =====
-- `Rule::compile` and `compile_group` of crates/jkr-filter/src/rules.rs.
pub use tkr.Prelude.{ok, err, ◌>>=◌}
use tkr.Prelude.{
  StdResult, ℕ, zero, suc, Option, none, some, List, [], ◌∷◌, ◌++◌, map, Text, length, byte_len,
  ltb, if◌then◌else◌,
}
use tkr.Filter.Regex.{RegexApi}
use tkr.Filter.Rule.{Rule}
use tkr.Filter.Compiled.{CompiledRule}
use tkr.Filter.Apply.Words.{CaseApi}

-- What `anyhow` carries; `out_of_fuel` belongs to the model only.
pub data Failure : Type 0 where
  bad_pattern empty_pairs out_of_fuel : Failure

abbrev pub Result {ℓ} : Type ℓ → Type ℓ
Result T = StdResult T Failure

-- `?` behind a call of the regex crate.
abbrev pub built {ℓ} : {A : Type ℓ} → Option A → Result A
built none = err bad_pattern
built (some a) = ok a

-- A stable sort by descending length in bytes, as `sort_by_key` with `Reverse`.
unfoldable pub insert_by_len : Text × Text → List (Text × Text) → List (Text × Text)
insert_by_len p [] = p ∷ []
insert_by_len p (q ∷ qs) =
    if ltb (byte_len p.0) (byte_len q.0) then q ∷ insert_by_len p qs else p ∷ q ∷ qs

unfoldable pub sort_by_len : List (Text × Text) → List (Text × Text)
unfolding insert_by_len
sort_by_len [] = []
sort_by_len (p ∷ ps) = insert_by_len p (sort_by_len ps)

unfoldable pub join : Text → List Text → Text
join sep [] = []
join sep (w ∷ []) = w
join sep (w ∷ v ∷ ws) = w ++ sep ++ join sep (v ∷ ws)

-- Collecting into a `HashMap`: the last value of a key stays, so the map is read from its end.
unfoldable pub collect_dict : (Text → Text) → List (Text × Text) → List (Text × Text)
collect_dict lower [] = []
collect_dict lower ((w, a) ∷ pairs) = collect_dict lower pairs ++ (lower w, a) ∷ []

-- The texts of "\b(?:" and ")\b".
abbrev word_open : Text
word_open = b'\\' ∷ b'b' ∷ b'(' ∷ b'?' ∷ b':' ∷ []

abbrev word_close : Text
word_close = b')' ∷ b'\\' ∷ b'b' ∷ []

-- The inner loop of `compile_group`: the patterns of the `SuppressRegex` rules in front.
unfoldable pub take_suppress : List Rule → List Text × List Rule
take_suppress (Rule.suppress_regex pattern ∷ rules) =
    let (patterns, rest) = take_suppress rules in (pattern ∷ patterns, rest)
take_suppress rules = ([], rules)

-- The pairs of the `TruncateMatch` rules in front.
unfoldable pub take_truncate : List Rule → List (Text × Text) × List Rule
take_truncate (Rule.truncate_match pattern replace ∷ rules) =
    let (pairs, rest) = take_truncate rules in ((pattern, replace) ∷ pairs, rest)
take_truncate rules = ([], rules)

module _ (case : CaseApi) (api : RegexApi) where
  open case use {to_lowercase}
  open api use {Re, ReSet, new, new_case_insensitive, new_set, escape}

  unfoldable pub compile_words : List (Text × Text) → Result (CompiledRule Re ReSet)
  unfolding sort_by_len join collect_dict
  compile_words [] = err empty_pairs
  compile_words (p ∷ ps) = do
    let alternation = join (b'|' ∷ []) (map (λ q. escape q.0) (sort_by_len (p ∷ ps)))
    re ← built (new_case_insensitive (word_open ++ alternation ++ word_close))
    ok (CompiledRule.substitute_words re (collect_dict to_lowercase (p ∷ ps)))

  unfoldable pub compile : Rule → Result (CompiledRule Re ReSet)
  unfolding compile_words
  compile (Rule.suppress_prefix prefix) = ok (CompiledRule.suppress_prefix prefix)
  compile (Rule.suppress_regex pattern) = do
    re ← built (new pattern)
    ok (CompiledRule.suppress_regex re)
  compile (Rule.keep_regex pattern) = do re ← built (new pattern); ok (CompiledRule.keep_regex re)
  compile (Rule.collapse_repeats pattern match_capture) = do
    re ← built (new pattern)
    ok (CompiledRule.collapse_repeats re match_capture none)
  compile (Rule.truncate_match pattern replace) = do
    re ← built (new pattern)
    ok (CompiledRule.truncate_match re replace)
  compile (Rule.collapse_run pattern keep_first ignore_blanks) = do
    re ← built (new pattern)
    ok (CompiledRule.collapse_run re keep_first ignore_blanks 0)
  compile (Rule.collapse_common_prefix prefix_len keep_first) =
      ok (CompiledRule.collapse_common_prefix prefix_len keep_first none 0)
  compile (Rule.truncate_long max_len ellipsis) =
      ok (CompiledRule.truncate_long max_len ellipsis (length ellipsis))
  compile (Rule.context_window pattern around) = do
    re ← built (new pattern)
    ok (CompiledRule.context_window re around)
  compile (Rule.substitute_words pairs) = compile_words pairs
  compile (Rule.empty_result_substitute message) =
      ok (CompiledRule.empty_result_substitute message 0)
  compile (Rule.dedup_with_count pattern key_capture) = do
    re ← built (new pattern)
    ok (CompiledRule.dedup_with_count re key_capture [])
  compile (Rule.group_by_capture pattern key_capture cap_per_key total_cap header) = do
    re ← built (new pattern)
    ok (CompiledRule.group_by_capture re key_capture cap_per_key total_cap header [] 0 0)

  -- A single pattern stays a `SuppressRegex`, several become a set.
  unfoldable pub compile_suppress_run : Text → List Text → Result (CompiledRule Re ReSet)
  compile_suppress_run pattern [] = do re ← built (new pattern); ok (CompiledRule.suppress_regex re)
  compile_suppress_run pattern (second ∷ others) = do
    set ← built (new_set (pattern ∷ second ∷ others))
    ok (CompiledRule.suppress_regex_set set)

  unfoldable pub compile_pairs : List (Text × Text) → Result (List (Re × Text))
  compile_pairs [] = ok []
  compile_pairs ((pattern, replace) ∷ pairs) = do
    re ← built (new pattern)
    rest ← compile_pairs pairs
    ok ((re, replace) ∷ rest)

  unfoldable pub compile_truncate_run :
      Text × Text → List (Text × Text) → Result (CompiledRule Re ReSet)
  unfolding compile_pairs
  compile_truncate_run (pattern, replace) [] = do
    re ← built (new pattern)
    ok (CompiledRule.truncate_match re replace)
  compile_truncate_run first (second ∷ others) = do
    precheck ← built (new_set (map (λ p. p.0) (first ∷ second ∷ others)))
    rules ← compile_pairs (first ∷ second ∷ others)
    ok (CompiledRule.truncate_match_set precheck rules)

  -- Each round takes at least one rule, so as many rounds as there are rules are enough.
  unfoldable pub compile_loop : ℕ → List Rule → Result (List (CompiledRule Re ReSet))
  compile_loop fuel [] = ok []
  compile_loop zero (rule ∷ rules) = err out_of_fuel
  compile_loop (suc fuel) (Rule.suppress_regex pattern ∷ rules) =
      let (patterns, rest) = take_suppress rules in
      do rule ← compile_suppress_run pattern patterns; out ← compile_loop fuel rest; ok (rule ∷ out)
  compile_loop (suc fuel) (Rule.truncate_match pattern replace ∷ rules) =
      let (pairs, rest) = take_truncate rules in
      do
        rule ← compile_truncate_run (pattern, replace) pairs
        out ← compile_loop fuel rest
        ok (rule ∷ out)
  compile_loop (suc fuel) (other ∷ rules) = do
    rule ← compile other
    out ← compile_loop fuel rules
    ok (rule ∷ out)

  unfoldable pub compile_group : List Rule → Result (List (CompiledRule Re ReSet))
  unfolding compile_loop take_suppress take_truncate compile_suppress_run compile_truncate_run
      compile
  compile_group rules = compile_loop (length rules) rules
