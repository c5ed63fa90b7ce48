-- ===== src/Filter/Apply/Collapse.antt =====
-- `CollapseRun` (crates/jkr-filter/src/rules.rs) over consecutive lines.
use tkr.Prelude.{
  ℕ, suc, ◌≡◌, Bool, true, false, ◌&&◌, ◌||◌, Option, none, some, List, [], ◌∷◌, Text, is_blank,
  All, if◌then◌else◌,
}
use tkr.Filter.Regex.{RegexApi}
use tkr.Filter.Compiled.{FilterResult}
use tkr.Filter.Apply.Runs.{apply_collapse_run}

abbrev is_deferred : Option FilterResult → Bool
is_deferred none = true
is_deferred (some _) = false

module _ (api : RegexApi) (re : api.Re) (keep_first : ℕ) (ignore_blanks : Bool) where
  open api use {is_match}

  -- The number of matching lines among `lines`.
  abbrev pub matches_in : List Text → ℕ
  matches_in [] = 0
  matches_in (line ∷ lines) = if is_match re line then suc (matches_in lines) else matches_in lines

  -- No line ends the run: each matches, or is a blank line that the rule ignores.
  abbrev pub IsRun : List Text → Type 0
  IsRun = All (λ line. (is_match re line || (ignore_blanks && is_blank line)) ≡ true)

  -- From `count`: how many matching lines the rule lets through, and its count afterwards.
  unfoldable pub run_lines : ℕ → List Text → ℕ × ℕ
  unfolding apply_collapse_run
  run_lines count [] = (0, count)
  run_lines count (line ∷ lines) =
      let (opinion, count') = apply_collapse_run api re keep_first ignore_blanks count line in
      let (through, count'') = run_lines count' lines in
      (if is_match re line && is_deferred opinion then suc through else through, count'')
