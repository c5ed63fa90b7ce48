-- ===== src/Filter/Compiled.antt =====
-- `CompiledRule` of crates/jkr-filter/src/rules.rs, and `FilterResult` of crates/jkr-api/src/legacy.rs.
use tkr.Prelude.{ℕ, Bool, Option, List, Text}

pub data FilterResult : Type 0 where
  pass : FilterResult
  replace : Text → FilterResult
  suppress : FilterResult
  suppress_with_note : ℕ → FilterResult
  annotate : Text → FilterResult

-- `IndexMap<String, (String, u32)>`: the first line seen for each key and the count, oldest first.
abbrev pub Seen : Type 0
Seen = List (Text × (Text × ℕ))

-- `IndexMap<String, (Vec<String>, u32)>`: the kept lines and the overflow for each key.
abbrev pub Buckets : Type 0
Buckets = List (Text × (List Text × ℕ))

-- The last fields of a rule that keeps state are its state.
pub data CompiledRule (Re ReSet : Type 0) : Type 0 where
  suppress_prefix : (prefix : Text) → CompiledRule Re ReSet
  suppress_regex : (re : Re) → CompiledRule Re ReSet
  suppress_regex_set : (set : ReSet) → CompiledRule Re ReSet
  keep_regex : (re : Re) → CompiledRule Re ReSet
  collapse_repeats :
      (re : Re) (group : Option ℕ) (last_capture : Option Text) → CompiledRule Re ReSet
  truncate_match : (re : Re) (replace : Text) → CompiledRule Re ReSet
  truncate_match_set : (precheck : ReSet) (rules : List (Re × Text)) → CompiledRule Re ReSet
  collapse_run :
      (re : Re) (keep_first : ℕ) (ignore_blanks : Bool) (count : ℕ) → CompiledRule Re ReSet
  collapse_common_prefix :
      (prefix_len keep_first : ℕ) (last_prefix : Option Text) (count : ℕ) → CompiledRule Re ReSet
  substitute_words : (re : Re) (dict : List (Text × Text)) → CompiledRule Re ReSet
  truncate_long : (max_len : ℕ) (ellipsis : Text) (ellipsis_chars : ℕ) → CompiledRule Re ReSet
  context_window : (re : Re) (around : ℕ) → CompiledRule Re ReSet
  empty_result_substitute : (message : Text) (observed_count : ℕ) → CompiledRule Re ReSet
  dedup_with_count : (re : Re) (key_capture : Option ℕ) (seen : Seen) → CompiledRule Re ReSet
  group_by_capture :
      (re : Re) (key_capture : Option ℕ) (cap_per_key total_cap : ℕ) (header : Text)
      (buckets : Buckets) (total_kept global_overflow : ℕ)
      → CompiledRule Re ReSet
