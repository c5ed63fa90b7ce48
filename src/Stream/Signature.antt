-- ===== src/Stream/Signature.antt =====
-- crates/jkr/src/signature.rs: the signature of a line, in which what varies is a placeholder.
pub mod Placeholders
use tkr.Prelude.{
  ℕ, zero, suc, ◌+◌, ◌-◌, Bool, true, false, not, ◌&&◌, ◌||◌, Option, none, some, List, [], ◌∷◌,
  ◌++◌, Text, codes, length, take, drop, get_elem?, all, any, is_ascii_digit, ltb, leb, ◌==◌,
  if◌then◌else◌,
}

abbrev pub max_sig_len : ℕ
max_sig_len = 80

abbrev pub char_of : Option ℕ → ℕ
char_of (some c) = c
char_of none = 0

-- `c[i]` inside the sequence.
abbrev pub char_at : Text → ℕ → ℕ
char_at cs i = char_of (get_elem? cs i)

-- What `f` finds at a position takes the place of so many characters, which are at least one.
unfoldable pub rewrite_from : (Text → Option (ℕ × Text)) → ℕ → Text → Text
rewrite_from f skip [] = []
rewrite_from f (suc skip) (c ∷ cs) = rewrite_from f skip cs
rewrite_from f zero (c ∷ cs) = elim (f (c ∷ cs)) [
  | none ↦ c ∷ rewrite_from f 0 cs
  | some (taken, placeholder) ↦ placeholder ++ rewrite_from f (taken - 1) cs
]

unfoldable pub rewrite_with : (Text → Option (ℕ × Text)) → Text → Text
unfolding rewrite_from
rewrite_with f s = rewrite_from f 0 s

unfoldable pub is_iso : Text → Bool
unfolding is_ascii_digit
is_iso c =
    all (λ i. is_ascii_digit (char_at c i))
      (0 ∷ 1 ∷ 2 ∷ 3 ∷ 5 ∷ 6 ∷ 8 ∷ 9 ∷ 11 ∷ 12 ∷ 14 ∷ 15 ∷ 17 ∷ 18 ∷ [])
    && char_at c 4 == b'-'
    && char_at c 7 == b'-'
    && char_at c 10 == b'T'
    && char_at c 13 == b':'
    && char_at c 16 == b':'

unfoldable pub iso_at : Text → Option (ℕ × Text)
unfolding is_iso
iso_at rest =
    let head = take 19 rest in
    if length head == 19 && is_iso head then some (19, codes "T") else none

unfoldable pub replace_iso_timestamps : Text → Text
unfolding rewrite_with iso_at
replace_iso_timestamps s = rewrite_with iso_at s

unfoldable pub is_hex : ℕ → Bool
unfolding is_ascii_digit
is_hex c = is_ascii_digit c || leb b'a' c && leb c b'f' || leb b'A' c && leb c b'F'

-- The dashes, and hexadecimal digits at the other places.
unfoldable pub is_uuid : Text → Bool
unfolding is_hex
is_uuid c =
    all (λ i. char_at c i == b'-') (8 ∷ 13 ∷ 18 ∷ 23 ∷ [])
    && all is_hex (take 8 c)
    && all is_hex (take 4 (drop 9 c))
    && all is_hex (take 4 (drop 14 c))
    && all is_hex (take 4 (drop 19 c))
    && all is_hex (take 12 (drop 24 c))

unfoldable pub uuid_at : Text → Option (ℕ × Text)
unfolding is_uuid
uuid_at rest =
    let head = take 36 rest in
    if length head == 36 && is_uuid head then some (36, codes "U") else none

unfoldable pub replace_uuids : Text → Text
unfolding rewrite_with uuid_at
replace_uuids s = rewrite_with uuid_at s

-- The lower-case hexadecimal digits.
unfoldable pub is_lower_hex : ℕ → Bool
unfolding is_ascii_digit
is_lower_hex c = is_ascii_digit c || leb b'a' c && leb c b'f'

abbrev pub is_ascii_alphabetic : ℕ → Bool
is_ascii_alphabetic c = leb b'a' c && leb c b'z' || leb b'A' c && leb c b'Z'

unfoldable pub flush_hex : Text → Text
flush_hex run = if leb 8 (length run) && any is_ascii_alphabetic run then codes "H" else run

-- `replace_long_hex` behind the run that it has read.
unfoldable pub long_hex_from : Text → Text → Text
unfolding is_lower_hex flush_hex
long_hex_from run [] = flush_hex run
long_hex_from run (c ∷ cs) =
    let inside = long_hex_from (run ++ c ∷ []) cs in
    let outside = long_hex_from [] cs in
    if is_lower_hex c then inside else flush_hex run ++ c ∷ outside

unfoldable pub replace_long_hex : Text → Text
unfolding long_hex_from
replace_long_hex s = long_hex_from [] s

-- The digits at the beginning, at most so many.
unfoldable pub leading_digits : ℕ → Text → ℕ
unfolding is_ascii_digit
leading_digits zero cs = 0
leading_digits (suc n) [] = 0
leading_digits (suc n) (c ∷ cs) =
    let rest = leading_digits n cs in if is_ascii_digit c then rest + 1 else 0

abbrev pub starts_dotted : Text → Bool
starts_dotted [] = false
starts_dotted (c ∷ cs) = c == b'.'

unfoldable pub goes_on : Text → Bool
unfolding is_ascii_digit
goes_on [] = false
goes_on (c ∷ cs) = is_ascii_digit c || c == b'.'

abbrev pub plus : ℕ → Option ℕ → Option ℕ
plus n none = none
plus n (some m) = some (n + m)

-- `ipv4_len_at` with so many octets behind this one; the bytes it consumes are ASCII characters.
unfoldable pub octets_len : ℕ → Text → Option ℕ
unfolding leading_digits goes_on
octets_len zero cs =
    let digits = leading_digits 3 cs in
    if digits == 0 || goes_on (drop digits cs) then none else some digits
octets_len (suc n) cs =
    let digits = leading_digits 3 cs in
    let rest = octets_len n (drop (digits + 1) cs) in
    if digits == 0 || not (starts_dotted (drop digits cs)) then none else plus (digits + 1) rest

abbrev pub as_ip : Option ℕ → Option (ℕ × Text)
as_ip none = none
as_ip (some n) = some (n, codes "IP")

unfoldable pub ipv4_at : Text → Option (ℕ × Text)
unfolding octets_len
ipv4_at rest = as_ip (octets_len 3 rest)

unfoldable pub replace_ipv4 : Text → Text
unfolding rewrite_with ipv4_at
replace_ipv4 s = rewrite_with ipv4_at s

-- `replace_digit_runs` inside or outside a run.
unfoldable pub digit_runs_from : Bool → Text → Text
unfolding is_ascii_digit
digit_runs_from in_digits [] = []
digit_runs_from in_digits (c ∷ cs) =
    let inside = digit_runs_from true cs in
    let outside = digit_runs_from false cs in
    if is_ascii_digit c then (if in_digits then inside else b'N' ∷ inside) else c ∷ outside

unfoldable pub replace_digit_runs : Text → Text
unfolding digit_runs_from
replace_digit_runs s = digit_runs_from false s

abbrev pub ellipsis : ℕ
ellipsis = 0x2026

unfoldable pub truncate_with_ellipsis : Text → ℕ → Text
truncate_with_ellipsis s max = if leb (length s) max then s else take max s ++ ellipsis ∷ []

unfoldable pub signature_of : Text → Text
unfolding replace_iso_timestamps replace_uuids replace_long_hex replace_ipv4 replace_digit_runs
    truncate_with_ellipsis
signature_of line =
    truncate_with_ellipsis
      (replace_digit_runs
        (replace_ipv4 (replace_long_hex (replace_uuids (replace_iso_timestamps line)))))
      max_sig_len

unfoldable pub regex_meta : ℕ → Bool
regex_meta c = any (λ m. m == c) (codes ".+*?()[]{}|^$\\/")

unfoldable pub regex_of_char : ℕ → Text
unfolding regex_meta
regex_of_char c =
    if c == b'T'
    then codes "\\d{4}-\\d{2}-\\d{2}T\\d{2}:\\d{2}:\\d{2}"
    else if c == b'U'
    then codes "[0-9a-f]{8}-[0-9a-f]{4}-[0-9a-f]{4}-[0-9a-f]{4}-[0-9a-f]{12}"
    else if c == b'H'
    then codes "[0-9a-f]{8,}"
    else if c == b'N'
    then codes "\\d+"
    else if regex_meta c
    then 92 ∷ c ∷ []
    else c ∷ []

unfoldable pub signature_to_regex : Text → Text
unfolding regex_of_char
signature_to_regex [] = []
signature_to_regex (c ∷ []) = regex_of_char c
signature_to_regex (c ∷ d ∷ cs) =
    let behind = signature_to_regex cs in
    let next = signature_to_regex (d ∷ cs) in
    if c == b'I' && d == b'P'
    then codes "\\d+\\.\\d+\\.\\d+\\.\\d+" ++ behind
    else regex_of_char c ++ next
