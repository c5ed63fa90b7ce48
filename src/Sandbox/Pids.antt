-- ===== src/Sandbox/Pids.antt =====
-- `HashMap` with process ids as keys: an association list.
use tkr.Prelude.{ℕ, ◌≡◌, ◌≢◌, refl, Option, none, some, List, [], ◌∷◌, ◌==◌, if◌then◌else◌, arith}

abbrev pub Pids {ℓ} : Type ℓ → Type ℓ
Pids V = List (ℕ × V)

module _ {ℓ} {V : Type ℓ} where
  -- HashMap::get
  unfoldable pub pid_get : ℕ → Pids V → Option V
  pid_get pid [] = none
  pid_get pid ((p, v) ∷ table) = let rest = pid_get pid table in if p == pid then some v else rest

  -- HashMap::remove
  unfoldable pub pid_remove : ℕ → Pids V → Pids V
  pid_remove pid [] = []
  pid_remove pid ((p, v) ∷ table) =
      let rest = pid_remove pid table in if p == pid then rest else (p, v) ∷ rest

  -- HashMap::insert
  unfoldable pub pid_insert : ℕ → V → Pids V → Pids V
  unfolding pid_remove
  pid_insert pid v table = (pid, v) ∷ pid_remove pid table

  pub pid_get-pid_remove : (pid : ℕ) (table : Pids V) → pid_get pid (pid_remove pid table) ≡ none
  unfolding pid_get pid_remove
  pid_get-pid_remove pid [] = refl
  pid_get-pid_remove pid ((p, v) ∷ table) = ground (arith, pid_get-pid_remove pid table)

  pub pid_get-pid_remove_other :
      (pid other : ℕ) (table : Pids V)
      → pid ≢ other
      → pid_get other (pid_remove pid table) ≡ pid_get other table
  unfolding pid_get pid_remove
  pid_get-pid_remove_other pid other [] h = refl
  pid_get-pid_remove_other pid other ((p, v) ∷ table) h =
      ground (arith, pid_get-pid_remove_other pid other table h)

  pub pid_get-pid_insert :
      (pid : ℕ) (v : V) (table : Pids V) → pid_get pid (pid_insert pid v table) ≡ some v
  unfolding pid_get pid_insert
  pid_get-pid_insert pid v table = ground arith

  pub pid_get-pid_insert_other :
      (pid other : ℕ) (v : V) (table : Pids V)
      → pid ≢ other
      → pid_get other (pid_insert pid v table) ≡ pid_get other table
  unfolding pid_get pid_insert
  pid_get-pid_insert_other pid other v table h =
      ground (arith, pid_get-pid_remove_other pid other table h)
