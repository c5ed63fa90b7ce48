-- ===== src/Mesh/Bytes.antt =====
-- Bytes, and the results of crates/jkr-mesh/src/lib.rs.
pub use tkr.Prelude.{ok, err, ◌>>=◌, ◌>>◌}
use tkr.Prelude.{
  StdResult, ℕ, zero, suc, ◌+◌, ◌-◌, ◌/◌, ◌%◌, List, [], ◌∷◌, ◌++◌, Text, codes, ltb, starts_with,
  ◌≡◌, ◌↔◌, refl, arith, drop, if◌then◌else◌,
}

-- `[u8; n]`, `Vec<u8>` and `&[u8]`
abbrev pub Bytes : Type 0
Bytes = List ℕ

-- `Error`, without the messages that only tell the values again.
pub data Error : Type 0 where
  invalid_invite bad_signature encoding : Error
  expired : ℕ → ℕ → Error

abbrev pub Result {ℓ} : Type ℓ → Type ℓ
Result T = StdResult T Error

-- `Ok(())`
pub data Checked : Type 0 where
  checked : Checked

-- Both checks pass.
pub >>_iff :
    (r s : Result Checked) → ((r >> s) ≡ ok checked) ↔ ((r ≡ ok checked) × (s ≡ ok checked))
>>_iff (ok checked) s = (λ h. (refl, h), λ h. h.1)
>>_iff (err e) s = ground arith

-- str::as_bytes
unfoldable pub utf8_char : ℕ → Bytes
utf8_char c =
    if ltb c 0x80
    then c ∷ []
    else if ltb c 0x800
    then (0xc0 + c / 64) ∷ (0x80 + c % 64) ∷ []
    else if ltb c 0x10000
    then (0xe0 + c / 4096) ∷ (0x80 + c / 64 % 64) ∷ (0x80 + c % 64) ∷ []
    else (0xf0 + c / 262144) ∷ (0x80 + c / 4096 % 64) ∷ (0x80 + c / 64 % 64) ∷ (0x80 + c % 64) ∷ []

unfoldable pub as_bytes : Text → Bytes
unfolding utf8_char
as_bytes [] = []
as_bytes (c ∷ cs) = utf8_char c ++ as_bytes cs

-- The `width` low bytes of a number, the high one first: `to_be_bytes`.
unfoldable pub to_be_bytes : ℕ → ℕ → Bytes
to_be_bytes zero n = []
to_be_bytes (suc width) n = to_be_bytes width (n / 256) ++ (n % 256) ∷ []

unfoldable pub zeros : ℕ → Bytes
zeros zero = []
zeros (suc n) = 0 ∷ zeros n

-- `s.strip_prefix("0x").unwrap_or(s)`
unfoldable pub strip_0x : Text → Text
unfolding starts_with
strip_0x s = if starts_with s (codes "0x") then drop 2 s else s

-- u64::abs_diff
abbrev pub abs_diff : ℕ → ℕ → ℕ
abs_diff a b = (a - b) + (b - a)
