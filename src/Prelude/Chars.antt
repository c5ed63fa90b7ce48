-- ===== src/Prelude/Chars.antt =====
-- Rust's `str`: a sequence of Unicode scalar values, with its length in UTF-8 bytes.
use Prim.Native.Nat.{ℕ, ◌+◌, ◌-◌, ◌*◌, ◌≤◌}
use Prim.Native.Char.{code}
use Prim.Native.String.{String}
use mathlib.Core.Path.{◌≡◌, refl}
use mathlib.Core.Logic.{◌↔◌}
use mathlib.Core.Bool.{Bool, true, false, ◌&&◌, ◌||◌}
use mathlib.Core.List.{List, [], ◌∷◌, ◌++◌}
use native.Mathlib.Omega.{arith}
use tkr.Prelude.Tests.{ltb, leb, ◌==◌, if◌then◌else◌}
use tkr.Prelude.Lists.{length}

-- A `char` is its scalar value.
abbrev pub Text : Type 0
Text = List ℕ

abbrev pub codes : String → Text
codes String.[] = []
codes (String.◌∷◌ c s) = code c ∷ codes s

-- char::len_utf8
unfoldable pub len_utf8 : ℕ → ℕ
len_utf8 c = if ltb c 0x80 then 1 else if ltb c 0x800 then 2 else if ltb c 0x10000 then 3 else 4

-- str::len, which counts bytes.
unfoldable pub byte_len : Text → ℕ
byte_len [] = 0
byte_len (c ∷ cs) = len_utf8 c + byte_len cs

-- `&s[..n]` at a character boundary.
unfoldable pub slice_to : ℕ → Text → Text
unfolding len_utf8
slice_to n [] = []
slice_to n (c ∷ cs) = let rest = slice_to (n - len_utf8 c) cs in if n == 0 then [] else c ∷ rest

-- str::is_char_boundary
unfoldable pub is_char_boundary : Text → ℕ → Bool
unfolding len_utf8
is_char_boundary [] n = n == 0
is_char_boundary (c ∷ cs) n =
    let rest = is_char_boundary cs (n - len_utf8 c) in n == 0 || (leb (len_utf8 c) n && rest)

-- `==` on strings.
abbrev pub text_eq : Text → Text → Bool
text_eq [] [] = true
text_eq (c ∷ cs) (d ∷ ds) = c == d && text_eq cs ds
text_eq _ _ = false

-- str::starts_with
unfoldable pub starts_with : Text → Text → Bool
starts_with s [] = true
starts_with [] (p ∷ ps) = false
starts_with (c ∷ cs) (p ∷ ps) = c == p && starts_with cs ps

-- str::contains
unfoldable pub contains : Text → Text → Bool
unfolding starts_with
contains [] p = starts_with [] p
contains (c ∷ cs) p = starts_with (c ∷ cs) p || contains cs p

-- char::is_whitespace: the code points with the Unicode property White_Space.
unfoldable pub is_whitespace : ℕ → Bool
is_whitespace c =
    c == 0x20
    || leb 0x09 c && leb c 0x0d
    || c == 0x85
    || c == 0xa0
    || c == 0x1680
    || leb 0x2000 c && leb c 0x200a
    || c == 0x2028
    || c == 0x2029
    || c == 0x202f
    || c == 0x205f
    || c == 0x3000

-- char::is_ascii_digit
unfoldable pub is_ascii_digit : ℕ → Bool
is_ascii_digit c = leb b'0' c && leb c b'9'

-- `s.trim().is_empty()`
unfoldable pub is_blank : Text → Bool
unfolding is_whitespace
is_blank [] = true
is_blank (c ∷ cs) = is_whitespace c && is_blank cs

-- str::trim_end
unfoldable pub trim_end : Text → Text
unfolding is_blank
trim_end [] = []
trim_end (c ∷ cs) = let rest = trim_end cs in if is_blank (c ∷ cs) then [] else c ∷ rest

pub text_eq_iff : (s t : Text) → (text_eq s t ≡ true) ↔ (s ≡ t)
text_eq_iff s t = (sound s t, λ e. complete s t e)
  where
    sound : (s t : Text) → text_eq s t ≡ true → s ≡ t
    sound [] [] h = refl
    sound [] (d ∷ ds) h = cc
    sound (c ∷ cs) [] h = cc
    sound (c ∷ cs) (d ∷ ds) h = ground (arith, sound cs ds)

    complete : (s t : Text) → s ≡ t → text_eq s t ≡ true
    complete [] [] h = refl
    complete [] (d ∷ ds) h = cc
    complete (c ∷ cs) [] h = cc
    complete (c ∷ cs) (d ∷ ds) h = ground (arith, complete cs ds)

pub text_eq_refl : (s : Text) → text_eq s s ≡ true
text_eq_refl s = (text_eq_iff s s).1 refl

pub len_utf8_bounds : (c : ℕ) → (1 ≤ len_utf8 c) × (len_utf8 c ≤ 4)
unfolding len_utf8
len_utf8_bounds c = ground arith

-- A text has between one and four bytes for each of its characters.
pub byte_len_bounds : (s : Text) → (length s ≤ byte_len s) × (byte_len s ≤ 4 * length s)
unfolding byte_len
byte_len_bounds [] = omega arith
byte_len_bounds (c ∷ cs) = omega (arith, len_utf8_bounds c, byte_len_bounds cs)

pub byte_len-append : (s t : Text) → byte_len (s ++ t) ≡ byte_len s + byte_len t
unfolding byte_len
byte_len-append [] t = omega arith
byte_len-append (c ∷ cs) t = omega (arith, byte_len-append cs t)

pub byte_len-slice_to :
    (s : Text) (n : ℕ) → is_char_boundary s n ≡ true → byte_len (slice_to n s) ≡ n
unfolding byte_len slice_to is_char_boundary
byte_len-slice_to [] n h = ground arith
byte_len-slice_to (c ∷ cs) n h =
    ground (arith, len_utf8_bounds c, byte_len-slice_to cs (n - len_utf8 c))

-- str::ends_with
unfoldable pub ends_with : Text → Text → Bool
ends_with [] p = text_eq [] p
ends_with (c ∷ cs) p = text_eq (c ∷ cs) p || ends_with cs p

-- str::to_ascii_lowercase
unfoldable pub to_ascii_lowercase : Text → Text
to_ascii_lowercase [] = []
to_ascii_lowercase (c ∷ cs) =
    (if leb b'A' c && leb c b'Z' then c + 32 else c) ∷ to_ascii_lowercase cs
