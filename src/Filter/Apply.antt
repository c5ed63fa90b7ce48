-- ===== src/Filter/Apply.antt =====
-- `CompiledRule::apply` of crates/jkr-filter/src/rules.rs: `none` defers to the next rule. The
-- function returns the rule with its new state beside the result.
pub mod Lines
pub mod Runs
pub mod Groups
pub mod Words
pub mod Cut
pub mod Collapse
pub mod Keyed
pub mod Held
pub mod Counts
pub mod Dedup
pub mod Buckets
use Lines.{apply_truncate_long, apply_common_prefix, apply_context_window}
use Runs.{apply_collapse_run, apply_collapse_repeats}
use Groups.{Grouped, apply_dedup, apply_group}
use Words.{CaseApi, apply_substitute_words}
use tkr.Prelude.{
  ℕ, zero, suc, ◌+◌, Bool, Option, none, some, List, [], ◌∷◌, Text, starts_with, get_elem?,
  if◌then◌else◌, u64,
}
use tkr.Filter.Regex.{RegexApi}
use tkr.Filter.Compiled.{FilterResult, CompiledRule}

abbrev pub suppress_if : Bool → Option FilterResult
suppress_if b = if b then some FilterResult.suppress else none

abbrev pub replaced : Option Text → Option FilterResult
replaced none = none
replaced (some s) = some (FilterResult.replace s)

module _ (case : CaseApi) (api : RegexApi) where
  open api use {Re, ReSet, is_match, set_is_match, set_matches, replace_all}

  -- The first index of `precheck.matches(line)` picks the expression that runs. An index out of
  -- range would panic; `RegexSet` reports none.
  unfoldable pub apply_truncate_match_set : ReSet → List (Re × Text) → Text → Option FilterResult
  apply_truncate_match_set precheck rules line = elim (set_matches precheck line) [
    | [] ↦ none
    | first_idx ∷ _ ↦ elim (get_elem? rules first_idx) [
      | none ↦ none
      | some (re, replace) ↦ replaced (replace_all re line replace)
    ]
  ]

  unfoldable pub apply : CompiledRule Re ReSet → Text → Option FilterResult × CompiledRule Re ReSet
  unfolding apply_truncate_match_set apply_collapse_repeats apply_collapse_run apply_common_prefix
      apply_substitute_words apply_truncate_long apply_context_window apply_dedup apply_group
  apply (CompiledRule.suppress_prefix prefix) line =
      (suppress_if (starts_with line prefix), CompiledRule.suppress_prefix prefix)
  apply (CompiledRule.suppress_regex re) line =
      (suppress_if (is_match re line), CompiledRule.suppress_regex re)
  apply (CompiledRule.suppress_regex_set set) line =
      (suppress_if (set_is_match set line), CompiledRule.suppress_regex_set set)
  apply (CompiledRule.keep_regex re) line =
      (if is_match re line then none else some FilterResult.suppress, CompiledRule.keep_regex re)
  apply (CompiledRule.collapse_repeats re group last_capture) line =
      let (result, last_capture') = apply_collapse_repeats api re group last_capture line in
      (result, CompiledRule.collapse_repeats re group last_capture')
  apply (CompiledRule.truncate_match re replace) line =
      (replaced (replace_all re line replace), CompiledRule.truncate_match re replace)
  apply (CompiledRule.truncate_match_set precheck rules) line =
      (apply_truncate_match_set precheck rules line, CompiledRule.truncate_match_set precheck rules)
  apply (CompiledRule.collapse_run re keep_first ignore_blanks count) line =
      let (result, count') = apply_collapse_run api re keep_first ignore_blanks count line in
      (result, CompiledRule.collapse_run re keep_first ignore_blanks count')
  apply (CompiledRule.collapse_common_prefix prefix_len keep_first last_prefix count) line =
      let (result, last_prefix', count') =
        apply_common_prefix prefix_len keep_first last_prefix count line in
      (result, CompiledRule.collapse_common_prefix prefix_len keep_first last_prefix' count')
  apply (CompiledRule.substitute_words re dict) line =
      (apply_substitute_words case api re dict line, CompiledRule.substitute_words re dict)
  apply (CompiledRule.truncate_long max_len ellipsis ellipsis_chars) line = (
    apply_truncate_long max_len ellipsis ellipsis_chars line,
    CompiledRule.truncate_long max_len ellipsis ellipsis_chars,
  )
  apply (CompiledRule.context_window re around) line =
      (apply_context_window api re around line, CompiledRule.context_window re around)
  apply (CompiledRule.empty_result_substitute message observed_count) line =
      (none, CompiledRule.empty_result_substitute message (u64 (observed_count + 1)))
  apply (CompiledRule.dedup_with_count re key_capture seen) line =
      let (result, seen') = apply_dedup api re key_capture seen line in
      (result, CompiledRule.dedup_with_count re key_capture seen')
  apply (CompiledRule.group_by_capture re key cap_per_key total_cap header buckets kept dropped)
        line =
      let g : Grouped = record {
        buckets = buckets;
        total_kept = kept;
        global_overflow = dropped;
      } in
      let (result, g') = apply_group api re key cap_per_key total_cap g line in
      (
        result,
        CompiledRule.group_by_capture re key cap_per_key total_cap header g'.buckets g'.total_kept
            g'.global_overflow,
      )
