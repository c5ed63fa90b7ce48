-- ===== src/Filter/Apply/Cut.antt =====
-- `TruncateLong` and the prefix of `CollapseCommonPrefix` (crates/jkr-filter/src/rules.rs): the walks
-- over bytes against a count of characters.
use tkr.Prelude.{
  ℕ, zero, suc, ◌+◌, ◌-◌, ◌^◌, ◌≤◌, ◌<◌, ◌≡◌, refl, ap, ◌∙◌, min, max, Option, none, some, List, [],
  ◌∷◌, ◌++◌, Text, length, length-append, length-take, get_elem?, take, len_utf8, slice_to,
  len_utf8_bounds, byte_len, byte_len_bounds, ltb, leb, leb→le, ◌==◌, if◌then◌else◌, u32, arith,
  inl, inr, Bool-cases,
}
use native.Mathlib.Nat.{zero-add, sub-zero}
use tkr.Filter.Compiled.{FilterResult}
use tkr.Filter.Apply.Lines.{
  byte_offset, cut_long, apply_truncate_long, prefix_walk, same_as, apply_common_prefix,
}

slice_to-byte_offset : (k : ℕ) (s : Text) → slice_to (byte_offset k s) s ≡ take k s
unfolding slice_to byte_offset
slice_to-byte_offset zero [] = refl
slice_to-byte_offset (suc k) [] = refl
slice_to-byte_offset zero (c ∷ cs) = refl
slice_to-byte_offset (suc k) (c ∷ cs) =
    let e : len_utf8 c + byte_offset k cs - len_utf8 c ≡ byte_offset k cs = omega arith in
    rw e (ground (arith, len_utf8_bounds c, slice_to-byte_offset k cs))

get_elem?-none : {A : Type 0} (xs : List A) (n : ℕ) → length xs ≤ n → get_elem? xs n ≡ none
get_elem?-none [] n h = refl
get_elem?-none (x ∷ xs) zero h = absurd (omega arith)
get_elem?-none (x ∷ xs) (suc n) h = get_elem?-none xs n (omega arith)

get_elem?-some :
    {A : Type 0} (xs : List A) (n : ℕ) → n < length xs → (x : A) × (get_elem? xs n ≡ some x)
get_elem?-some [] n h = absurd (omega arith)
get_elem?-some (x ∷ xs) zero h = (x, refl)
get_elem?-some (x ∷ xs) (suc n) h = get_elem?-some xs n (omega arith)

-- What the rule says it does, over characters.
abbrev pub truncated_to : ℕ → Text → Text → Option FilterResult
truncated_to max_len ellipsis line =
    if leb (length line) max_len
    then none
    else some (FilterResult.replace (take (max_len - length ellipsis) line ++ ellipsis))

cut_long_lem :
    (max_len : ℕ) (ellipsis line : Text)
    → cut_long max_len ellipsis (length ellipsis) line
      ≡ take (max_len - length ellipsis) line ++ ellipsis
unfolding cut_long
cut_long_lem max_len ellipsis line =
    ap (λ head. head ++ ellipsis) (slice_to-byte_offset (max_len - length ellipsis) line)

-- The two tests of the length in bytes decide as a count of the characters would: a line of at
-- most `max_len` characters is left alone, any other keeps its first characters and ends in the
-- ellipsis. (No text has 2^64 bytes.)
pub apply_truncate_long-eq-truncated_to :
    (max_len : ℕ) (ellipsis line : Text)
    → byte_len line < 2 ^ 64
    → apply_truncate_long max_len ellipsis (length ellipsis) line
      ≡ truncated_to max_len ellipsis line
unfolding apply_truncate_long
apply_truncate_long-eq-truncated_to max_len ellipsis line bounded =
    elim (Bool-cases (leb (length line) max_len)) [
      | inl short ↦
          ground (arith, get_elem?-none line max_len (leb→le _ _ short), byte_len_bounds line)
      | inr long ↦ ground (
        arith,
        (get_elem?-some line max_len (ground arith)).1,
        slice_to-byte_offset (max_len - length ellipsis) line,
        byte_len_bounds line,
      )
    ]

-- What replaces a line of fewer than 2^64 bytes has at most `max_len` characters, or at most those of
-- the ellipsis, and the line had more than `max_len`.
pub length-truncated :
    (max_len : ℕ) (ellipsis line out : Text)
    → byte_len line < 2 ^ 64
    → apply_truncate_long max_len ellipsis (length ellipsis) line ≡ some (FilterResult.replace out)
    → (length out ≤ max max_len (length ellipsis)) × (max_len < length line)
length-truncated max_len ellipsis line out bounded h = ground (
  arith,
  apply_truncate_long-eq-truncated_to max_len ellipsis line bounded,
  length-append (take (max_len - length ellipsis) line) ellipsis,
  length-take (max_len - length ellipsis) line,
)

prefix_walk_lem :
    (prefix_len i cutoff seen : ℕ) (s : Text)
    → seen ≤ prefix_len
    → cutoff ≡ i
    → prefix_walk prefix_len i cutoff seen s
      ≡ (i + byte_offset (prefix_len - seen) s, min prefix_len (seen + length s))
unfolding prefix_walk byte_offset
prefix_walk_lem prefix_len i cutoff seen [] h e = ground arith
prefix_walk_lem prefix_len i cutoff seen (c ∷ cs) h e = elim (Bool-cases (seen == prefix_len)) [
  | inl full ↦
      let none_left : prefix_len - seen ≡ 0 = ground arith in rw (full, none_left) (ground arith)
  | inr more ↦
      let one_less : prefix_len - seen ≡ suc (prefix_len - (seen + 1)) = ground arith in
      rw (more, one_less)
        (ground (
          arith,
          prefix_walk_lem prefix_len (i + len_utf8 c) (i + len_utf8 c) (seen + 1) cs (ground arith)
              refl,
        ))
]

prefix_walk-seen :
    (prefix_len : ℕ) (line : Text)
    → ltb (prefix_walk prefix_len 0 0 0 line).1 prefix_len ≡ ltb (length line) prefix_len
prefix_walk-seen prefix_len line =
    ground
      (arith, ap (λ (w : ℕ × ℕ). w.1) (prefix_walk_lem prefix_len 0 0 0 line (omega arith) refl))

prefix_walk-slice :
    (prefix_len : ℕ) (line : Text)
    → slice_to (prefix_walk prefix_len 0 0 0 line).0 line ≡ take prefix_len line
prefix_walk-slice prefix_len line =
    let walked : (prefix_walk prefix_len 0 0 0 line).0 ≡ byte_offset prefix_len line =
      ap (λ (w : ℕ × ℕ). w.0) (prefix_walk_lem prefix_len 0 0 0 line (omega arith) refl)
      ∙ simp (zero-add, sub-zero) in
    ap (λ n. slice_to n line) walked ∙ slice_to-byte_offset prefix_len line

-- The rule over characters: the first `prefix_len` of the line against those of the line before.
unfoldable pub common_prefix :
    ℕ → ℕ → Option Text → ℕ → Text → Option FilterResult × Option Text × ℕ
unfolding same_as
common_prefix prefix_len keep_first last_prefix count line =
    let cur = take prefix_len line in
    let matches_prev = same_as last_prefix cur in
    let new_count = if matches_prev then u32 (count + 1) else 1 in
    let kept : Option Text = if matches_prev then last_prefix else some cur in
    if ltb (length line) prefix_len then (none, none, 0) else (
      if ltb keep_first new_count then some (FilterResult.suppress_with_note 0) else none,
      kept,
      new_count,
    )

-- The walk over byte indices compares exactly the first `prefix_len` characters of the lines; a
-- shorter line resets the rule.
pub apply_common_prefix-eq-common_prefix :
    (prefix_len keep_first : ℕ) (last_prefix : Option Text) (count : ℕ) (line : Text)
    → apply_common_prefix prefix_len keep_first last_prefix count line
      ≡ common_prefix prefix_len keep_first last_prefix count line
unfolding apply_common_prefix common_prefix
apply_common_prefix-eq-common_prefix prefix_len keep_first last_prefix count line =
    rw (prefix_walk-slice prefix_len line, prefix_walk-seen prefix_len line)
