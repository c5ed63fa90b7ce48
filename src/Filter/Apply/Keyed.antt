-- ===== src/Filter/Apply/Keyed.antt =====
-- The lines that a `DedupWithCount` or `GroupByCapture` rule (crates/jkr-filter/src/rules.rs)
-- gathers, with their keys.
use tkr.Prelude.{ℕ, ◌≤◌, ◌≡◌, refl, Option, none, some, List, [], ◌∷◌, Text, length, arith}
use tkr.Filter.Regex.{RegexApi, Captures}
use tkr.Filter.Apply.Groups.{key_of}

-- The keys and the lines that a rule gathers.
abbrev pub keyed : (api : RegexApi) → api.Re → Option ℕ → List Text → List (Text × Text)
keyed api re key_capture [] = []
keyed api re key_capture (line ∷ lines) = elim (api.captures re line) [
  | none ↦ keyed api re key_capture lines
  | some caps ↦ (key_of caps key_capture, line) ∷ keyed api re key_capture lines
]

module _ (api : RegexApi) (re : api.Re) (key_capture : Option ℕ) where
  pub length-keyed : (lines : List Text) → length (keyed api re key_capture lines) ≤ length lines
  length-keyed [] = omega arith
  length-keyed (line ∷ lines) = ground (arith, length-keyed lines)

  pub keyed_lem :
      (line : Text) (lines : List Text)
      → (api.captures re line ≡ none
          → keyed api re key_capture (line ∷ lines) ≡ keyed api re key_capture lines)
        × ((caps : Captures)
            → api.captures re line ≡ some caps
            → keyed api re key_capture (line ∷ lines)
              ≡ (key_of caps key_capture, line) ∷ keyed api re key_capture lines)
  keyed_lem line lines = (λ e. rw (keyed, e) refl, λ caps e. rw (keyed, e) refl)
