-- ===== src/Filter/Apply/Dedup.antt =====
-- What a `DedupWithCount` rule (crates/jkr-filter/src/rules.rs) holds after the lines of a command.
use tkr.Prelude.{
  Option-cases, inl, inr, text_eq_refl, if_cases, ℕ, suc, ◌+◌, ◌^◌, ◌<◌, ◌≡◌, refl, ap, ◌∙◌, true,
  false, Option, none, some, List, [], ◌∷◌, Text, text_eq, text_eq_iff, length, if◌then◌else◌, u32,
  arith,
}
use tkr.Filter.Regex.{RegexApi}
use tkr.Filter.Compiled.{Seen}
use tkr.Filter.Apply.Groups.{key_of, count_line, apply_dedup}
use tkr.Filter.Apply.Keyed.{keyed, length-keyed}

-- The entry of a key.
abbrev pub seen_get : Text → Seen → Option (Text × ℕ)
seen_get j [] = none
seen_get j ((k, e) ∷ seen) = if text_eq k j then some e else seen_get j seen

-- The first line that was seen with a key, and how many were, in a list of keys and lines.
abbrev pub first_with : Text → List (Text × Text) → Option Text
first_with j [] = none
first_with j ((k, line) ∷ pairs) = if text_eq k j then some line else first_with j pairs

abbrev pub occurrences : Text → List (Text × Text) → ℕ
occurrences j [] = 0
occurrences j ((k, line) ∷ pairs) =
    if text_eq k j then suc (occurrences j pairs) else occurrences j pairs

-- The entry of a key among keys and lines.
abbrev pub entry_of : Text → List (Text × Text) → Option (Text × ℕ)
entry_of j pairs = elim (first_with j pairs) [
  | none ↦ none
  | some line ↦ some (line, occurrences j pairs)
]

-- An entry after more keys and lines: an old one keeps its line, a new one takes the first.
abbrev entry_after : Option (Text × ℕ) → Text → List (Text × Text) → Option (Text × ℕ)
entry_after (some (first, n)) j pairs = some (first, n + occurrences j pairs)
entry_after none j pairs = entry_of j pairs

abbrev next_entry : Option (Text × ℕ) → Text → Option (Text × ℕ)
next_entry (some (first, n)) line = some (first, u32 (n + 1))
next_entry none line = some (line, 1)

seen_get-count_line :
    (j key line : Text) (seen : Seen)
    → seen_get j (count_line key line seen)
      ≡ (if text_eq key j then next_entry (seen_get key seen) line else seen_get j seen)
unfolding count_line
seen_get-count_line j key line [] = ground arith
seen_get-count_line j key line ((k, (first, n)) ∷ seen) = ground (
  arith,
  text_eq_iff k key,
  text_eq_iff k j,
  text_eq_iff key j,
  seen_get-count_line j key line seen,
)

-- Counts stay far from the end of `u32`.
abbrev Small : ℕ → Option (Text × ℕ) → Type 0
Small n none = Unit
Small n (some (_, k)) = k + n < 2 ^ 32

abbrev gather : List (Text × Text) → Seen → Seen
gather [] seen = seen
gather ((key, line) ∷ pairs) seen = gather pairs (count_line key line seen)

Small-next_entry :
    (n : ℕ) (o : Option (Text × ℕ)) (line : Text)
    → suc n < 2 ^ 32
    → Small (suc n) o
    → Small n (next_entry o line)
Small-next_entry n none line short h = omega arith
Small-next_entry n (some (first, k)) line short h = omega arith

Small-weaken : (n : ℕ) (o : Option (Text × ℕ)) → Small (suc n) o → Small n o
Small-weaken n none h = tt
Small-weaken n (some (first, k)) h = omega arith

Small-count_line :
    (n : ℕ) (key line : Text) (seen : Seen)
    → suc n < 2 ^ 32
    → ((k : Text) → Small (suc n) (seen_get k seen))
    → (j : Text) → Small n (seen_get j (count_line key line seen))
Small-count_line n key line seen short small j = rw (seen_get-count_line j key line seen) (
    if_cases (Small n) (text_eq key j) _ _
      (λ _. Small-next_entry n (seen_get key seen) line short (small key))
      (λ _. Small-weaken n (seen_get j seen) (small j)))

entry_after-next_entry :
    (o : Option (Text × ℕ)) (j key line : Text) (pairs : List (Text × Text))
    → text_eq key j ≡ true
    → Small (suc (length pairs)) o
    → entry_after (next_entry o line) j pairs ≡ entry_after o j ((key, line) ∷ pairs)
entry_after-next_entry none j key line pairs e small = ground arith
entry_after-next_entry (some (first, n)) j key line pairs e small = ground arith

entry_after-skip :
    (o : Option (Text × ℕ)) (j key line : Text) (pairs : List (Text × Text))
    → text_eq key j ≡ false
    → entry_after o j pairs ≡ entry_after o j ((key, line) ∷ pairs)
entry_after-skip none j key line pairs e = ground arith
entry_after-skip (some (first, n)) j key line pairs e = ground arith

-- After gathering, each key has its first line and the number of its lines.
seen_get-gather :
    (j : Text) (pairs : List (Text × Text)) (seen : Seen)
    → ((k : Text) → Small (length pairs) (seen_get k seen))
    → length pairs < 2 ^ 32
    → seen_get j (gather pairs seen) ≡ entry_after (seen_get j seen) j pairs
seen_get-gather j [] seen small short = ground arith
seen_get-gather j ((key, line) ∷ pairs) seen small short =
    seen_get-gather j pairs (count_line key line seen)
      (Small-count_line (length pairs) key line seen short small) (omega arith)
    ∙ ap (λ o. entry_after o j pairs) (seen_get-count_line j key line seen)
    ∙ if_cases (λ o. entry_after o j pairs ≡ entry_after (seen_get j seen) j ((key, line) ∷ pairs))
        (text_eq key j) _ _
        (λ e.
          rw ((text_eq_iff key j).0 e)
            (entry_after-next_entry (seen_get j seen) j j line pairs (text_eq_refl j) (small j)))
        (λ e. entry_after-skip (seen_get j seen) j key line pairs e)

module _ (api : RegexApi) (re : api.Re) (key_capture : Option ℕ) where
  -- The state of a `DedupWithCount` rule after the lines of a command.
  unfoldable pub dedup_lines : Seen → List Text → Seen
  unfolding apply_dedup
  dedup_lines seen [] = seen
  dedup_lines seen (line ∷ lines) = dedup_lines (apply_dedup api re key_capture seen line).1 lines

  dedup_lines-eq-gather :
      (seen : Seen) (lines : List Text)
      → dedup_lines seen lines ≡ gather (keyed api re key_capture lines) seen
  unfolding dedup_lines
  dedup_lines-eq-gather seen [] = refl
  dedup_lines-eq-gather seen (line ∷ lines) = elim (Option-cases (api.captures re line)) [
    | inl e ↦ ground (arith, dedup_lines-eq-gather seen lines)
    | inr (caps, e) ↦
        ground (arith, dedup_lines-eq-gather (count_line (key_of caps key_capture) line seen) lines)
  ]

  -- After fewer than 2^32 lines the rule holds, for each key, the first matching line with that
  -- key and the number of matching lines with it; and nothing for a key that no line had.
  pub dedup_lines_lem :
      (lines : List Text) (j : Text)
      → length lines < 2 ^ 32
      → seen_get j (dedup_lines [] lines) ≡ entry_of j (keyed api re key_capture lines)
  dedup_lines_lem lines j short =
      ap (seen_get j) (dedup_lines-eq-gather [] lines)
      ∙ seen_get-gather j (keyed api re key_capture lines) [] (λ k. tt)
          (omega (arith, length-keyed api re key_capture lines))
