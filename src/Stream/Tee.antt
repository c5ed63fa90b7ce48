-- ===== src/Stream/Tee.antt =====
-- crates/jkr/src/tee.rs: the transcript of the unfiltered lines.
use tkr.Prelude.{
  ℕ, zero, suc, ◌+◌, ◌-◌, ◌≤◌, ◌<◌, ◌≡◌, refl, [], ◌∷◌, ◌++◌, Text, codes, byte_len,
  byte_len-append, ap, len_utf8, len_utf8_bounds, slice_to, byte_len-slice_to, is_char_boundary,
  true, ◌==◌, leb, if◌then◌else◌, arith, Bool-cases, inl, inr,
}

-- "[jkr: tee truncated — JKR_TEE_MAX_BYTES]\n", with its dash U+2014.
unfoldable pub marker : Text
marker = codes "[jkr: tee truncated " ++ 0x2014 ∷ codes " JKR_TEE_MAX_BYTES]\n"

-- The loop that steps back to a character boundary.
unfoldable pub boundary_below : Text → ℕ → ℕ
unfolding is_char_boundary
boundary_below s zero = 0
boundary_below s (suc n) =
    let lower = boundary_below s n in if is_char_boundary s (suc n) then suc n else lower

unfoldable pub truncate_utf8_prefix : Text → ℕ → Text
unfolding boundary_below byte_len slice_to
truncate_utf8_prefix s max_bytes =
    if leb (byte_len s) max_bytes then s else slice_to (boundary_below s max_bytes) s

unfoldable pub append_raw_line : Text → Text → ℕ → Text
append_raw_line buf line cap =
    let need = byte_len line + 1 in
    let room = cap - byte_len buf in
    let cut = buf ++ truncate_utf8_prefix line (room - 1) ++ codes "\n" in
    if leb cap (byte_len buf)
    then buf
    else if leb need room
    then buf ++ line ++ codes "\n"
    else if leb room 1
    then buf
    else if leb (byte_len cut + byte_len marker) cap
    then cut ++ marker
    else cut

is_char_boundary-zero : (s : Text) → is_char_boundary s 0 ≡ true
unfolding is_char_boundary
is_char_boundary-zero [] = refl
is_char_boundary-zero (c ∷ cs) = refl

boundary_below-is_char_boundary :
    (s : Text) (n : ℕ) → (is_char_boundary s (boundary_below s n) ≡ true) × (boundary_below s n ≤ n)
unfolding boundary_below
boundary_below-is_char_boundary s zero = (is_char_boundary-zero s, omega arith)
boundary_below-is_char_boundary s (suc n) = elim (Bool-cases (is_char_boundary s (suc n))) [
  | inl here ↦ rw here (here, omega arith)
  | inr not_here ↦
      let (boundary, below) = boundary_below-is_char_boundary s n in
      rw not_here (boundary, omega arith)
]

-- The loop stops at the first boundary that it meets.
boundary_below-greatest :
    (s : Text) (n b : ℕ) → is_char_boundary s b ≡ true → b ≤ n → b ≤ boundary_below s n
unfolding boundary_below
boundary_below-greatest s zero b h le = le
boundary_below-greatest s (suc n) b h le = elim (Bool-cases (is_char_boundary s (suc n))) [
  | inl here ↦ rw here le
  | inr not_here ↦ rw not_here (elim (Bool-cases (b == suc n)) [
    | inl last ↦
        let e : b ≡ suc n = ground arith in absurd (ground (arith, ap (is_char_boundary s) e))
    | inr earlier ↦ boundary_below-greatest s n b h (ground arith)
  ])
]

is_char_boundary-cons :
    (c : ℕ) (cs : Text) (b : ℕ)
    → is_char_boundary cs b ≡ true
    → is_char_boundary (c ∷ cs) (len_utf8 c + b) ≡ true
is_char_boundary-cons c cs b h =
    let e : len_utf8 c + b - len_utf8 c ≡ b = omega arith in
    unfold is_char_boundary in rw e (ground (arith, h))

-- A boundary is never more than three bytes away.
near_boundary :
    (s : Text) (n : ℕ)
    → n ≤ byte_len s
    → (b : ℕ) × (is_char_boundary s b ≡ true) × (b ≤ n) × (n < b + 4)
unfolding byte_len is_char_boundary
near_boundary [] n h = (0, refl, omega arith, omega arith)
near_boundary (c ∷ cs) n h = elim (Bool-cases (leb (len_utf8 c) n)) [
  | inl past ↦
      let (b, boundary, below, near) = near_boundary cs (n - len_utf8 c) (ground arith) in
      (len_utf8 c + b, is_char_boundary-cons c cs b boundary, ground arith, ground arith)
  | inr inside ↦ (0, refl, omega arith, ground (arith, len_utf8_bounds c))
]

-- The cut keeps at most `n` bytes, and at least `n - 3`.
truncate_utf8_prefix-bounds :
    (s : Text) (n : ℕ)
    → n < byte_len s
    → (byte_len (truncate_utf8_prefix s n) ≤ n) × (n < byte_len (truncate_utf8_prefix s n) + 4)
truncate_utf8_prefix-bounds s n long =
    let (boundary, below) = boundary_below-is_char_boundary s n in
    let (b, near, b_le, close) = near_boundary s n (omega arith) in
    let size = byte_len-slice_to s (boundary_below s n) boundary in
    let greatest = boundary_below-greatest s n b near b_le in
    unfold truncate_utf8_prefix in ground (arith, size, greatest)

byte_len-newline : byte_len (codes "\n") ≡ 1
unfolding byte_len len_utf8
byte_len-newline = refl

byte_len-marker : byte_len marker ≡ 43
unfolding marker byte_len len_utf8
byte_len-marker = refl

-- The length of a transcript with a cut line.
byte_len-cut :
    (buf line : Text) (n : ℕ)
    → n < byte_len line
    → let cut = buf ++ truncate_utf8_prefix line n ++ codes "\n" in
      (byte_len cut ≤ byte_len buf + n + 1) × (byte_len buf + n < byte_len cut + 3)
byte_len-cut buf line n long = omega (
  arith,
  byte_len-append (buf ++ truncate_utf8_prefix line n) (codes "\n"),
  byte_len-append buf (truncate_utf8_prefix line n),
  byte_len-newline,
  truncate_utf8_prefix-bounds line n long,
)

-- The transcript never passes its cap, if it was within it before the line.
pub byte_len-append_raw_line :
    (buf line : Text) (cap : ℕ) → byte_len buf ≤ cap → byte_len (append_raw_line buf line cap) ≤ cap
unfolding append_raw_line
byte_len-append_raw_line buf line cap h = ground (
  arith,
  byte_len-append (buf ++ line) (codes "\n"),
  byte_len-append buf line,
  byte_len-newline,
  byte_len-append (buf ++ truncate_utf8_prefix line (cap - byte_len buf - 1) ++ codes "\n") marker,
  byte_len-cut buf line (cap - byte_len buf - 1),
)

-- In a transcript below its cap a line that does not fit is cut, and the marker is not written.
pub append_raw_line_unmarked :
    (buf line : Text) (cap : ℕ)
    → byte_len buf < cap
    → cap < byte_len buf + byte_len line + 1
    → append_raw_line buf line cap ≡ (
        if leb (cap - byte_len buf) 1
        then buf
        else buf ++ truncate_utf8_prefix line (cap - byte_len buf - 1) ++ codes "\n")
unfolding append_raw_line
append_raw_line_unmarked buf line cap h long =
    ground (arith, byte_len-marker, byte_len-cut buf line (cap - byte_len buf - 1))
