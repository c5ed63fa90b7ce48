-- ===== src/Prelude/Decimal.antt =====
-- Rust's `Display` of unsigned integers.
use Prim.Native.Nat.{ℕ, zero, suc, ◌+◌, ◌*◌, ◌/◌, ◌%◌, ◌-◌, ◌<◌}
use mathlib.Core.Path.{◌≡◌, ap, ◌∙◌}
use mathlib.Core.Logic.{inl, inr}
use mathlib.Core.List.{[], ◌∷◌}
use native.Mathlib.Omega.{arith}
use tkr.Prelude.Tests.{ltb, if◌then◌else◌, Bool-cases}
use tkr.Prelude.Chars.{Text}

-- The digits of `n` before those in `acc`; each round takes one digit, so `n + 1` rounds are enough.
unfoldable pub digits_before : ℕ → ℕ → Text → Text
digits_before zero n acc = acc
digits_before (suc fuel) n acc =
    let acc' = (48 + n % 10) ∷ acc in
    let more = digits_before fuel (n / 10) acc' in if ltb n 10 then acc' else more

unfoldable pub decimal : ℕ → Text
unfolding digits_before
decimal n = digits_before (n + 1) n []

-- The value of a sequence of digits behind those already read.
unfoldable pub value_from : ℕ → Text → ℕ
value_from n [] = n
value_from n (c ∷ cs) = value_from (n * 10 + (c - 48)) cs

value_from-digits_before :
    (fuel n : ℕ) (acc : Text)
    → n < fuel
    → value_from 0 (digits_before fuel n acc) ≡ value_from n acc
unfolding digits_before value_from
value_from-digits_before zero n acc h = absurd (omega arith)
value_from-digits_before (suc fuel) n acc h = elim (Bool-cases (ltb n 10)) [
  | inl last ↦
      let e : 0 * 10 + (48 + n % 10 - 48) ≡ n = ground arith in
      rw last (ap (λ k. value_from k acc) e)
  | inr more ↦
      let e : n / 10 * 10 + (48 + n % 10 - 48) ≡ n = omega arith in
      rw more (
        value_from-digits_before fuel (n / 10) ((48 + n % 10) ∷ acc) (ground arith)
        ∙ ap (λ k. value_from k acc) e)
]

-- The decimal digits of a number denote the number.
pub value_from-decimal : (n : ℕ) → value_from 0 (decimal n) ≡ n
unfolding decimal value_from
value_from-decimal n = value_from-digits_before (n + 1) n [] (omega arith)
