-- ===== src/Filter/Apply/Lines.antt =====
-- The rules of `CompiledRule::apply` (crates/jkr-filter/src/rules.rs) that keep no state and cut a
-- line: `TruncateLong`, `ContextWindow`, and the prefix walk of `CollapseCommonPrefix`.
use tkr.Prelude.{
  ℕ, zero, suc, ◌+◌, ◌-◌, min, Bool, false, Option, none, some, [], ◌∷◌, ◌++◌, Text, length,
  get_elem?, take, drop, len_utf8, slice_to, byte_len, ltb, leb, ◌==◌, if◌then◌else◌,
  saturating_mul, u32, text_eq,
}
use tkr.Filter.Regex.{RegexApi}
use tkr.Filter.Compiled.{FilterResult}

-- `line.char_indices().nth(k).map(|(i, _)| i).unwrap_or(line.len())`
unfoldable pub byte_offset : ℕ → Text → ℕ
unfolding len_utf8
byte_offset k [] = 0
byte_offset zero (c ∷ cs) = 0
byte_offset (suc k) (c ∷ cs) = len_utf8 c + byte_offset k cs

-- The cut itself: the slice, and the ellipsis behind it.
unfoldable pub cut_long : ℕ → Text → ℕ → Text → Text
unfolding slice_to byte_offset
cut_long max_len ellipsis ellipsis_chars line =
    let keep = max_len - ellipsis_chars in
    let cutoff = byte_offset keep line in slice_to cutoff line ++ ellipsis

-- Two tests of the length in bytes come before the characters are counted.
unfoldable pub apply_truncate_long : ℕ → Text → ℕ → Text → Option FilterResult
unfolding cut_long byte_len
apply_truncate_long max_len ellipsis ellipsis_chars line =
    if leb (byte_len line) max_len
    then none
    else if leb (byte_len line) (saturating_mul max_len 4)
    then (elim (get_elem? line max_len) [
      | none ↦ none
      | some c ↦ some (FilterResult.replace (cut_long max_len ellipsis ellipsis_chars line))
    ])
    else some (FilterResult.replace (cut_long max_len ellipsis ellipsis_chars line))

abbrev pub horizontal_ellipsis : ℕ
horizontal_ellipsis = 0x2026

unfoldable pub window : ℕ → Text → Text → Text → Text
window around pre m post =
    let pre_cut = length pre - around in
    let post_keep = min around (length post) in
    let head : Text = if ltb 0 pre_cut then horizontal_ellipsis ∷ [] else [] in
    let tail : Text = if ltb post_keep (length post) then horizontal_ellipsis ∷ [] else [] in
    head ++ drop pre_cut pre ++ m ++ take post_keep post ++ tail

-- The loop that finds the byte cutoff: `i` is the byte index of the next character.
unfoldable pub prefix_walk : ℕ → ℕ → ℕ → ℕ → Text → ℕ × ℕ
unfolding len_utf8
prefix_walk prefix_len i cutoff chars_seen [] = (cutoff, chars_seen)
prefix_walk prefix_len i cutoff chars_seen (c ∷ cs) =
    let next = prefix_walk prefix_len (i + len_utf8 c) (i + len_utf8 c) (chars_seen + 1) cs in
    if chars_seen == prefix_len then (i, chars_seen) else next

-- `last_prefix.as_deref() == Some(cur)`
unfoldable pub same_as : Option Text → Text → Bool
same_as none cur = false
same_as (some last) cur = text_eq last cur

-- The result, and the new `last_prefix` and `count`.
unfoldable pub apply_common_prefix :
    ℕ → ℕ → Option Text → ℕ → Text → Option FilterResult × Option Text × ℕ
unfolding prefix_walk slice_to same_as
apply_common_prefix prefix_len keep_first last_prefix count line =
    let (cutoff, chars_seen) = prefix_walk prefix_len 0 0 0 line in
    if ltb chars_seen prefix_len
    then (none, none, 0)
    else let cur = slice_to cutoff line in
      let matches_prev = same_as last_prefix cur in
      let new_count = if matches_prev then u32 (count + 1) else 1 in
      let kept : Option Text = if matches_prev then last_prefix else some cur in
      (
        if ltb keep_first new_count then some (FilterResult.suppress_with_note 0) else none,
        kept,
        new_count,
      )

module _ (api : RegexApi) where
  open api use {Re, find}

  unfoldable pub apply_context_window : Re → ℕ → Text → Option FilterResult
  unfolding window
  apply_context_window re around line = elim (find re line) [
    | none ↦ none
    | some (pre, m, post) ↦ some (FilterResult.replace (window around pre m post))
  ]
