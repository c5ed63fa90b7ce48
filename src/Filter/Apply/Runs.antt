-- ===== src/Filter/Apply/Runs.antt =====
-- The rules of `CompiledRule::apply` (crates/jkr-filter/src/rules.rs) that watch consecutive lines:
-- `CollapseRun` and `CollapseRepeats`.
use tkr.Prelude.{
  ℕ, ◌+◌, Bool, false, Option, none, some, ◌&&◌, Text, is_blank, ltb, if◌then◌else◌, u32,
}
use tkr.Filter.Regex.{Captures, RegexApi}
use tkr.Filter.Compiled.{FilterResult}
use tkr.Filter.Apply.Lines.{same_as}

-- `group.unwrap_or(1)`
abbrev pub group_index : Option ℕ → ℕ
group_index none = 1
group_index (some i) = i

-- `caps.get(group).or_else(|| caps.get(0))`
unfoldable pub capture_or_whole : Captures → Option ℕ → Option Text
capture_or_whole caps group = elim (caps (group_index group)) [ some m ↦ some m | none ↦ caps 0 ]

-- `matches!((last, current), (Some(prev), Some(now)) if prev == now)`
unfoldable pub repeats : Option Text → Option Text → Bool
unfolding same_as
repeats last none = false
repeats last (some now) = same_as last now

module _ (api : RegexApi) where
  open api use {Re, is_match, captures}

  -- The result, and the new `count`.
  unfoldable pub apply_collapse_run : Re → ℕ → Bool → ℕ → Text → Option FilterResult × ℕ
  unfolding is_blank
  apply_collapse_run re keep_first ignore_blanks count line =
      if is_match re line
      then (let count' = u32 (count + 1) in
          (
            if ltb keep_first count' then some (FilterResult.suppress_with_note 0) else none,
            count',
          ))
      else if ignore_blanks && is_blank line
      then (none, count)
      else (none, 0)

  -- The result, and the new `last_capture`.
  unfoldable pub apply_collapse_repeats :
      Re → Option ℕ → Option Text → Text → Option FilterResult × Option Text
  unfolding capture_or_whole repeats
  apply_collapse_repeats re group last_capture line = elim (captures re line) [
    | none ↦ (none, none)
    | some caps ↦
        let current = capture_or_whole caps group in
        (if repeats last_capture current then some FilterResult.suppress else none, current)
  ]
