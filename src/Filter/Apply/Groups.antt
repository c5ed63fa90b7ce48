-- ===== src/Filter/Apply/Groups.antt =====
-- The rules of `CompiledRule::apply` (crates/jkr-filter/src/rules.rs) that gather lines for the
-- summary: `DedupWithCount` and `GroupByCapture`.
use tkr.Prelude.{
  ℕ, ◌+◌, Option, none, some, List, [], ◌∷◌, ◌++◌, ◌&&◌, not, Text, length, ltb, text_eq,
  if◌then◌else◌, u32,
}
use tkr.Filter.Regex.{Captures, RegexApi}
use tkr.Filter.Compiled.{FilterResult, Seen, Buckets}
use tkr.Filter.Apply.Runs.{capture_or_whole}

-- `key_match.map(|m| m.as_str()).unwrap_or("")`
unfoldable pub key_of : Captures → Option ℕ → Text
unfolding capture_or_whole
key_of caps key_capture = elim (capture_or_whole caps key_capture) [ none ↦ [] | some m ↦ m ]

-- A hit adds one to the count of the entry; a miss inserts an entry behind the others.
unfoldable pub count_line : Text → Text → Seen → Seen
count_line key line [] = (key, (line, 1)) ∷ []
count_line key line ((k, (first, n)) ∷ seen) =
    if text_eq k key
    then (k, (first, u32 (n + 1))) ∷ seen
    else (k, (first, n)) ∷ count_line key line seen

unfoldable pub bucket_of : Text → Buckets → List Text × ℕ
bucket_of key [] = ([], 0)
bucket_of key ((k, b) ∷ buckets) = if text_eq k key then b else bucket_of key buckets

unfoldable pub put_bucket : Text → List Text × ℕ → Buckets → Buckets
put_bucket key b [] = (key, b) ∷ []
put_bucket key b ((k, b') ∷ buckets) =
    if text_eq k key then (k, b) ∷ buckets else (k, b') ∷ put_bucket key b buckets

pub record Grouped : Type 0 where
  pub buckets : Buckets
  pub total_kept : ℕ
  pub global_overflow : ℕ

-- A matching line goes to its bucket, to the bucket's overflow, or to the global overflow.
unfoldable pub group_line : ℕ → ℕ → Text → Text → Grouped → Grouped
unfolding bucket_of put_bucket
group_line cap_per_key total_cap key line g =
    let (lines, overflow) = bucket_of key g.buckets in
    let under_per_key = ltb (u32 (length lines)) cap_per_key in
    let under_total = ltb g.total_kept total_cap in
    if under_per_key && under_total
    then (record g {
      buckets = put_bucket key (lines ++ line ∷ [], overflow) g.buckets;
      total_kept = u32 (g.total_kept + 1);
    })
    else if not under_per_key && under_total
    then record g { buckets = put_bucket key (lines, u32 (overflow + 1)) g.buckets }
    else (record g {
      buckets = put_bucket key (lines, overflow) g.buckets;
      global_overflow = u32 (g.global_overflow + 1);
    })

module _ (api : RegexApi) where
  open api use {Re, captures}

  unfoldable pub apply_dedup : Re → Option ℕ → Seen → Text → Option FilterResult × Seen
  unfolding key_of count_line
  apply_dedup re key_capture seen line = elim (captures re line) [
    | none ↦ (none, seen)
    | some caps ↦ (some FilterResult.suppress, count_line (key_of caps key_capture) line seen)
  ]

  unfoldable pub apply_group :
      Re → Option ℕ → ℕ → ℕ → Grouped → Text → Option FilterResult × Grouped
  unfolding key_of group_line
  apply_group re key_capture cap_per_key total_cap g line = elim (captures re line) [
    | none ↦ (none, g)
    | some caps ↦ (
      some FilterResult.suppress,
      group_line cap_per_key total_cap (key_of caps key_capture) line g,
    )
  ]
