-- ===== src/Table.antt =====
-- `HashMap` with strings or addresses as keys: an association list.
use tkr.Prelude.{
  ◌≡◌, refl, false, Option, none, some, List, [], ◌∷◌, Text, text_eq, text_eq_iff, text_eq_refl,
  if◌then◌else◌, arith,
}

abbrev pub Table {ℓ} : Type ℓ → Type ℓ
Table V = List (Text × V)

module _ {ℓ} {V : Type ℓ} where
  -- HashMap::get
  unfoldable pub get : Text → Table V → Option V
  get key [] = none
  get key ((k, v) ∷ table) = let rest = get key table in if text_eq k key then some v else rest

  -- HashMap::insert
  unfoldable pub insert : Text → V → Table V → Table V
  insert key value [] = (key, value) ∷ []
  insert key value ((k, v) ∷ table) =
      let rest = insert key value table in
      if text_eq k key then (k, value) ∷ table else (k, v) ∷ rest

  -- HashMap::remove
  unfoldable pub remove : Text → Table V → Table V
  remove key [] = []
  remove key ((k, v) ∷ table) =
      let rest = remove key table in if text_eq k key then rest else (k, v) ∷ rest

  pub get-insert :
      (key : Text) (value : V) (table : Table V) → get key (insert key value table) ≡ some value
  unfolding get insert
  get-insert key value [] = ground (arith, text_eq_refl key)
  get-insert key value ((k, v) ∷ table) = ground (arith, get-insert key value table)

  pub get-insert_other :
      (key other : Text) (value : V) (table : Table V)
      → text_eq key other ≡ false
      → get other (insert key value table) ≡ get other table
  unfolding get insert
  get-insert_other key other value [] h = ground arith
  get-insert_other key other value ((k, v) ∷ table) h =
      ground
        (arith, get-insert_other key other value table h, text_eq_iff k key, text_eq_iff k other)

  pub get-remove : (key : Text) (table : Table V) → get key (remove key table) ≡ none
  unfolding get remove
  get-remove key [] = refl
  get-remove key ((k, v) ∷ table) = ground (arith, get-remove key table)

  pub get-remove_other :
      (key other : Text) (table : Table V)
      → text_eq key other ≡ false
      → get other (remove key table) ≡ get other table
  unfolding get remove
  get-remove_other key other [] h = refl
  get-remove_other key other ((k, v) ∷ table) h =
      ground (arith, get-remove_other key other table h, text_eq_iff k key, text_eq_iff k other)
