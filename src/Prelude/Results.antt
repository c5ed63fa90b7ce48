-- ===== src/Prelude/Results.antt =====
-- Rust's `Result`, and `?` on one.

-- `std::result::Result`
pub data StdResult {ℓ} (T : Type ℓ) (E : Type 0) : Type ℓ where
  err : E → StdResult T E
  ok : T → StdResult T E

module _ {E : Type 0} where
  infixl 10 ◌>>=◌ ◌>>◌
  -- The first error ends the computation.
  abbrev pub ◌>>=◌ {ℓ κ} :
      {T : Type ℓ} {U : Type κ} → StdResult T E → (T → StdResult U E) → StdResult U E
  err problem >>= next = err problem
  ok value >>= next = next value

  abbrev pub ◌>>◌ {ℓ κ} : {T : Type ℓ} {U : Type κ} → StdResult T E → StdResult U E → StdResult U E
  err problem >> next = err problem
  ok _ >> next = next
