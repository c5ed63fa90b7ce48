-- ===== src/Filter/Rule.antt =====
-- `Rule` of crates/jkr-filter/src/rules.rs: a rule as its TOML entry gives it.
use tkr.Prelude.{ℕ, Bool, Option, List, [], ◌∷◌, Text}

-- The fields stand in the order of the source.
pub data Rule : Type 0 where
  suppress_prefix : (prefix : Text) → Rule
  suppress_regex : (pattern : Text) → Rule
  keep_regex : (pattern : Text) → Rule
  collapse_repeats : (pattern : Text) (match_capture : Option ℕ) → Rule
  truncate_match : (pattern replace : Text) → Rule
  collapse_run : (pattern : Text) (keep_first : ℕ) (ignore_blanks : Bool) → Rule
  collapse_common_prefix : (prefix_len keep_first : ℕ) → Rule
  truncate_long : (max_len : ℕ) (ellipsis : Text) → Rule
  context_window : (pattern : Text) (around : ℕ) → Rule
  substitute_words : (pairs : List (Text × Text)) → Rule
  empty_result_substitute : (message : Text) → Rule
  dedup_with_count : (pattern : Text) (key_capture : Option ℕ) → Rule
  group_by_capture :
      (pattern : Text) (key_capture : Option ℕ) (cap_per_key total_cap : ℕ) (header : Text) → Rule

abbrev pub default_prefix_len : ℕ
default_prefix_len = 24

abbrev pub default_keep_first : ℕ
default_keep_first = 3

abbrev pub default_ellipsis : Text
default_ellipsis = 0x2026 ∷ []

abbrev pub default_cap_per_key : ℕ
default_cap_per_key = 3

abbrev pub default_total_cap : ℕ
default_total_cap = 50
