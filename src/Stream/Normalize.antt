-- ===== src/Stream/Normalize.antt =====
-- `normalize_line`, `shorten_home` and `truncate_long_line` of crates/jkr/src/stream.rs. The home
-- directory is an argument.
use tkr.Prelude.{
  ℕ, zero, suc, ◌+◌, ◌-◌, ◌≤◌, ◌<◌, ◌≡◌, refl, ap, not, Option, none, some, [], ◌∷◌, ◌++◌, Text,
  codes, length, byte_len, len_utf8, len_utf8_bounds, starts_with, contains, trim_end, decimal, leb,
  ltb, if◌then◌else◌, arith, Bool-cases, inl, inr,
}
use tkr.Stream.Ansi.{strip_ansi}

abbrev pub max_line_len : ℕ
max_line_len = 800

-- The loop over the characters: they are taken while they fit into `max` bytes.
unfoldable pub take_bytes : ℕ → ℕ → Text → Text
unfolding len_utf8
take_bytes max taken [] = []
take_bytes max taken (c ∷ cs) =
    let more = take_bytes max (taken + len_utf8 c) cs in
    if ltb max (taken + len_utf8 c) then [] else c ∷ more

-- " … (+N chars truncated)"
unfoldable pub elision : ℕ → Text
unfolding decimal
elision elided = b' ' ∷ 0x2026 ∷ codes " (+" ++ decimal elided ++ codes " chars truncated)"

unfoldable pub truncate_long_line : Text → Text
unfolding byte_len take_bytes elision
truncate_long_line s =
    if leb (byte_len s) max_line_len
    then s
    else take_bytes max_line_len 0 s ++ elision (byte_len s - max_line_len)

-- `str::replace` with a non-empty pattern: `skip` characters of the last match are left to pass.
unfoldable pub replace_from : ℕ → Text → Text → Text → Text
unfolding starts_with
replace_from skip pattern by [] = []
replace_from (suc skip) pattern by (c ∷ cs) = replace_from skip pattern by cs
replace_from zero pattern by (c ∷ cs) =
    let found = starts_with (c ∷ cs) pattern in
    let rest = replace_from (if found then length pattern - 1 else 0) pattern by cs in
    if found then by ++ rest else c ∷ rest

unfoldable pub shorten_home : Option Text → Text → Text
unfolding replace_from contains
shorten_home none line = line
shorten_home (some []) line = line
shorten_home (some (h ∷ home)) line =
    if not (contains line (h ∷ home)) then line else replace_from 0 (h ∷ home) (b'~' ∷ []) line

unfoldable pub normalize_line : Option Text → Text → Text
unfolding strip_ansi shorten_home trim_end truncate_long_line
normalize_line home raw = truncate_long_line (trim_end (shorten_home home (strip_ansi raw)))

take_bytes-le :
    (max taken : ℕ) (s : Text) → taken ≤ max → taken + byte_len (take_bytes max taken s) ≤ max
unfolding take_bytes byte_len
take_bytes-le max taken [] h = omega arith
take_bytes-le max taken (c ∷ cs) h = ground (arith, take_bytes-le max (taken + len_utf8 c) cs)

-- What is taken is the beginning of the text, and at most three bytes short of what fits.
take_bytes-prefix :
    (max taken : ℕ) (s : Text)
    → taken ≤ max
    → max < taken + byte_len s
    → (rest : Text) × (take_bytes max taken s ++ rest ≡ s)
      × (max < taken + byte_len (take_bytes max taken s) + 4)
unfolding take_bytes byte_len
take_bytes-prefix max taken [] h long = absurd (omega arith)
take_bytes-prefix max taken (c ∷ cs) h long = elim (Bool-cases (ltb max (taken + len_utf8 c))) [
  | inl full ↦ rw full (c ∷ cs, refl, ground (arith, len_utf8_bounds c))
  | inr fits ↦
      let (rest, whole, tight) =
        take_bytes-prefix max (taken + len_utf8 c) cs (ground arith) (omega arith) in
      rw fits (rest, ap (◌∷◌ c) whole, omega arith)
]

-- A line of more than 800 bytes becomes a beginning of it, at most 800 bytes and at least 797 of
-- them, and a note that tells the bytes above 800.
pub truncate_long_line_lem :
    (s : Text)
    → max_line_len < byte_len s
    → (head rest : Text) × (head ++ rest ≡ s)
      × (byte_len head ≤ max_line_len)
      × (max_line_len < byte_len head + 4)
      × (truncate_long_line s ≡ head ++ elision (byte_len s - max_line_len))
unfolding truncate_long_line
truncate_long_line_lem s long =
    let (rest, whole, tight) = take_bytes-prefix max_line_len 0 s (omega arith) (omega arith) in
    (
      take_bytes max_line_len 0 s,
      rest,
      whole,
      omega (arith, take_bytes-le max_line_len 0 s (omega arith)),
      omega arith,
      ground arith,
    )
