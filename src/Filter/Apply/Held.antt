-- ===== src/Filter/Apply/Held.antt =====
-- What a bucket of a `GroupByCapture` rule (crates/jkr-filter/src/rules.rs) holds of its key's lines.
use tkr.Prelude.{
  ℕ, ◌+◌, ◌≤◌, ◌<◌, ◌≡◌, refl, sym, subst, ap, ◌∙◌, false, Bool-cases, inl, inr, ◌⊎◌, List, [], ◌∷◌,
  ◌++◌, append_assoc, append-nil, Text, text_eq, text_eq_iff, text_eq_refl, length, length-append,
  if◌then◌else◌, arith,
}
use tkr.Filter.Compiled.{Buckets}
use tkr.Filter.Apply.Groups.{bucket_of, put_bucket}

abbrev pub Bucket : Type 0
Bucket = List Text × ℕ

-- The lines gathered under a key, in their order.
unfoldable pub of_key : Text → List (Text × Text) → List Text
of_key key [] = []
of_key key ((k, line) ∷ matched) =
    let rest = of_key key matched in if text_eq k key then line ∷ rest else rest

pub of_key-same :
    (key line : Text) (matched : List (Text × Text))
    → of_key key (matched ++ (key, line) ∷ []) ≡ of_key key matched ++ line ∷ []
unfolding of_key
of_key-same key line [] = rw (text_eq_refl key) refl
of_key-same key line ((k, l) ∷ matched) = ground (arith, of_key-same key line matched)

pub of_key-other :
    (key other line : Text) (matched : List (Text × Text))
    → text_eq key other ≡ false
    → of_key other (matched ++ (key, line) ∷ []) ≡ of_key other matched
unfolding of_key
of_key-other key other line [] h = rw h refl
of_key-other key other line ((k, l) ∷ matched) h =
    ground (arith, of_key-other key other line matched h)

pub bucket_of-put_bucket :
    (key : Text) (b : Bucket) (buckets : Buckets) → bucket_of key (put_bucket key b buckets) ≡ b
unfolding bucket_of put_bucket
bucket_of-put_bucket key b [] = rw (text_eq_refl key) refl
bucket_of-put_bucket key b ((k, c) ∷ buckets) = ground (arith, bucket_of-put_bucket key b buckets)

pub bucket_of-put_bucket_other :
    (key other : Text) (b : Bucket) (buckets : Buckets)
    → text_eq key other ≡ false
    → bucket_of other (put_bucket key b buckets) ≡ bucket_of other buckets
unfolding bucket_of put_bucket
bucket_of-put_bucket_other key other b [] h = rw h refl
bucket_of-put_bucket_other key other b ((k, c) ∷ buckets) h = elim (Bool-cases (text_eq k key)) [
  | inl same ↦
      let missed : text_eq k other ≡ false =
        subst (λ n. text_eq n other ≡ false) (sym ((text_eq_iff k key).0 same)) h in
      rw (same, missed) refl
  | inr differ ↦ ground (arith, bucket_of-put_bucket_other key other b buckets h)
]

-- What a bucket holds of its key's lines, in a state that keeps `kept` lines: the first of them;
-- all of them, or as many as either cap allows; and the count of the others, unless the total cap
-- is reached.
pub record IsHeld (cap_per_key total_cap kept : ℕ) (b : Bucket) (mine : List Text) : Type 0 where
  pub first : (behind : List Text) × (b.0 ++ behind ≡ mine)
  pub whole : (b.0 ≡ mine) ⊎ ((cap_per_key ≤ length b.0) ⊎ (total_cap ≤ kept))
  pub over : (length b.0 + b.1 ≡ length mine) ⊎ (total_cap ≤ kept)

module _ (cap_per_key total_cap : ℕ) {kept : ℕ} {b : Bucket} {mine : List Text} where
  pub IsHeld-later :
      (later : ℕ)
      → kept ≤ later
      → IsHeld cap_per_key total_cap kept b mine
      → IsHeld cap_per_key total_cap later b mine
  IsHeld-later later h held = record {
    first = held.first;
    whole = elim held.whole [
      | inl all ↦ inl all
      | inr (inl full) ↦ inr (inl full)
      | inr (inr full) ↦ inr (inr (omega arith))
    ];
    over = elim held.over [ inl e ↦ inl e | inr full ↦ inr (omega arith) ];
  }

  pub IsHeld-push :
      (line : Text)
      → length b.0 < cap_per_key
      → kept < total_cap
      → IsHeld cap_per_key total_cap kept b mine
      → IsHeld cap_per_key total_cap (kept + 1) (b.0 ++ line ∷ [], b.1) (mine ++ line ∷ [])
  IsHeld-push line room open_total held =
      let all : b.0 ≡ mine = elim held.whole [
        | inl e ↦ e
        | inr (inl full) ↦ absurd (omega arith)
        | inr (inr full) ↦ absurd (omega arith)
      ] in
      let pushed : b.0 ++ line ∷ [] ≡ mine ++ line ∷ [] = ap (λ l. l ++ line ∷ []) all in
      record {
        first = ([], append-nil (b.0 ++ line ∷ []) ∙ pushed);
        whole = inl pushed;
        over = elim held.over [
          | inl e ↦
              inl (omega (arith, e, length-append b.0 (line ∷ []), length-append mine (line ∷ [])))
          | inr full ↦ absurd (omega arith)
        ];
      }

  first-later :
      (line : Text)
      → IsHeld cap_per_key total_cap kept b mine
      → (behind : List Text) × (b.0 ++ behind ≡ mine ++ line ∷ [])
  first-later line held = (
    held.first.0 ++ line ∷ [],
    sym (append_assoc b.0 held.first.0 (line ∷ [])) ∙ ap (λ l. l ++ line ∷ []) held.first.1,
  )

  pub IsHeld-over :
      (line : Text)
      → cap_per_key ≤ length b.0
      → kept < total_cap
      → IsHeld cap_per_key total_cap kept b mine
      → IsHeld cap_per_key total_cap kept (b.0, b.1 + 1) (mine ++ line ∷ [])
  IsHeld-over line full open_total held = record {
    first = first-later line held;
    whole = inr (inl full);
    over = elim held.over [
      | inl e ↦ inl (omega (arith, e, length-append mine (line ∷ [])))
      | inr reached ↦ absurd (omega arith)
    ];
  }

  pub IsHeld-left :
      (line : Text)
      → total_cap ≤ kept
      → IsHeld cap_per_key total_cap kept b mine
      → IsHeld cap_per_key total_cap kept b (mine ++ line ∷ [])
  IsHeld-left line reached held = record {
    first = first-later line held;
    whole = inr (inr reached);
    over = inr reached;
  }
