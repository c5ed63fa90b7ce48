-- ===== src/Samples/FilterExamples.antt =====
-- The theorems on crates/jkr-filter/src/rules.rs at small inputs.
use tkr.Prelude.{
  ◌≡◌, ◌≢◌, refl, ◌<◌, none, some, List, [], ◌∷◌, Text, codes, byte_len, len_utf8, arith,
}
use tkr.Filter.Rule.{Rule}
use tkr.Filter.Compiled.{FilterResult, CompiledRule}
use tkr.Filter.Compile.{ok, err, out_of_fuel, compile, compile_group}
use tkr.Filter.Plugin.{flush_rules}
use tkr.Filter.Apply.Lines.{apply_truncate_long, apply_common_prefix}
use tkr.Filter.Apply.Cut.{
  truncated_to, common_prefix, apply_truncate_long-eq-truncated_to,
  apply_common_prefix-eq-common_prefix,
}
use tkr.Filter.Apply.Keyed.{keyed}
use tkr.Filter.Apply.Dedup.{seen_get, entry_of, dedup_lines, dedup_lines_lem}
use tkr.Filter.Apply.Buckets.{IsGrouped, nothing_grouped, group_lines, group_lines-IsGrouped}
use tkr.Filter.Coalesce.Sources.{compile_each}
use tkr.Filter.Coalesce.Equivalence.{feed, compile_group-eq-compile_each, compile_group-terminates}
use tkr.Samples.{ascii_case}
use tkr.Samples.Regexes.{literals, literal_laws}

abbrev log_lines : List Text
log_lines = codes "warn a" ∷ codes "info b" ∷ codes "warn c" ∷ codes "warn a" ∷ []

abbrev long_line : Text
long_line = codes "a line of more than ten"

abbrev two_rules : List Rule
two_rules = Rule.suppress_regex (codes "warn") ∷ Rule.suppress_regex (codes "info") ∷ []

abbrev together : List (CompiledRule Text (List Text))
together = CompiledRule.suppress_regex_set (codes "warn" ∷ codes "info" ∷ []) ∷ []

abbrev apart : List (CompiledRule Text (List Text))
apart = CompiledRule.suppress_regex (codes "warn") ∷ CompiledRule.suppress_regex (codes "info") ∷ []

compile_group-together : compile_group ascii_case literals two_rules ≡ ok together
unfolding compile_group
compile_group-together = refl

compile_each-apart : compile_each ascii_case literals two_rules ≡ ok apart
unfolding compile_each compile
compile_each-apart = refl

compile_group-eq-compile_each_example :
    ((feed ascii_case literals together log_lines).0 ≡ (feed ascii_case literals apart log_lines).0)
    × (flush_rules [] (feed ascii_case literals together log_lines).1
        ≡ flush_rules [] (feed ascii_case literals apart log_lines).1)
compile_group-eq-compile_each_example =
    compile_group-eq-compile_each ascii_case literals literal_laws two_rules together apart
      log_lines compile_group-together compile_each-apart

compile_group-terminates_example : compile_group ascii_case literals two_rules ≢ err out_of_fuel
compile_group-terminates_example = compile_group-terminates ascii_case literals two_rules

group_lines-IsGrouped_example :
    IsGrouped 1 2
      (keyed literals (codes "warn") none log_lines)
      (group_lines literals (codes "warn") none 1 2 nothing_grouped log_lines)
group_lines-IsGrouped_example =
    group_lines-IsGrouped literals (codes "warn") none 1 2 log_lines (omega arith)

dedup_lines_example :
    seen_get (codes "warn a") (dedup_lines literals (codes "warn") none [] log_lines)
    ≡ entry_of (codes "warn a") (keyed literals (codes "warn") none log_lines)
dedup_lines_example =
    dedup_lines_lem literals (codes "warn") none log_lines (codes "warn a") (omega arith)

long_line_short : byte_len long_line < 18446744073709551616
unfolding byte_len len_utf8
long_line_short = omega arith

apply_truncate_long_example :
    apply_truncate_long 10 (codes "...") 3 long_line ≡ truncated_to 10 (codes "...") long_line
apply_truncate_long_example =
    apply_truncate_long-eq-truncated_to 10 (codes "...") long_line long_line_short

cut :
    apply_truncate_long 10 (codes "...") 3 long_line
    ≡ some (FilterResult.replace (codes "a line ..."))
unfolding apply_truncate_long
cut = refl

apply_common_prefix_example :
    apply_common_prefix 4 1 (some (codes "warn")) 1 (codes "warn c")
    ≡ common_prefix 4 1 (some (codes "warn")) 1 (codes "warn c")
apply_common_prefix_example =
    apply_common_prefix-eq-common_prefix 4 1 (some (codes "warn")) 1 (codes "warn c")
