-- ===== src/Filter/Regex.antt =====
-- The `regex` crate, as a parameter: what crates/jkr-filter/src/rules.rs calls of it.
use tkr.Prelude.{
  ℕ, suc, ◌≡◌, Bool, true, false, Option, none, some, List, [], ◌∷◌, ◌++◌, Text, any, if◌then◌else◌,
}

-- The groups of one match; group 0 is the whole match.
abbrev pub Captures : Type 0
Captures = ℕ → Option Text

pub record RegexApi : Type 1 where
  -- `Regex` and `RegexSet`
  pub Re : Type 0
  pub ReSet : Type 0
  -- `Regex::new`, `RegexBuilder` with `case_insensitive(true)`, `RegexSet::new`, `regex::escape`
  pub new : Text → Option Re
  pub new_case_insensitive : Text → Option Re
  pub new_set : List Text → Option ReSet
  pub escape : Text → Text
  pub is_match : Re → Text → Bool
  -- The text before the first match, the match, and the text after it.
  pub find : Re → Text → Option (Text × Text × Text)
  pub captures : Re → Text → Option Captures
  -- `replace_all`: `none` is `Cow::Borrowed`, `some` is `Cow::Owned`.
  pub replace_all : Re → Text → Text → Option Text
  -- `replace_all` with a closure over group 0.
  pub replace_all_with : Re → Text → (Text → Text) → Option Text
  pub set_is_match : ReSet → Text → Bool
  -- The indices of the matching patterns.
  pub set_matches : ReSet → Text → List ℕ

-- `Regex::new` on each pattern, up to the first that is refused.
unfoldable pub new_each : {Re : Type 0} → (Text → Option Re) → List Text → Option (List Re)
new_each new [] = some []
new_each new (p ∷ ps) = elim (new p) [
  | none ↦ none
  | some re ↦ elim (new_each new ps) [ none ↦ none | some res ↦ some (re ∷ res) ]
]

-- The indices from `i` on of the expressions that match, in ascending order.
unfoldable pub matching_from : {Re : Type 0} → (Re → Bool) → ℕ → List Re → List ℕ
matching_from hit i [] = []
matching_from hit i (re ∷ res) =
    let rest = matching_from hit (suc i) res in if hit re then i ∷ rest else rest

-- What the crate's documentation says of these functions, as far as a theorem here relies on it.
pub record RegexLaws (api : RegexApi) : Type 0 where
  -- A set matches where one of its expressions does.
  pub set_is_match_any :
      (ps : List Text) (set : api.ReSet) (res : List api.Re) (line : Text)
      → api.new_set ps ≡ some set
      → new_each api.new ps ≡ some res
      → api.set_is_match set line ≡ any (λ re. api.is_match re line) res
  -- `SetMatches` iterates over the matching indices in ascending order.
  pub set_matches_ascending :
      (ps : List Text) (set : api.ReSet) (res : List api.Re) (line : Text)
      → api.new_set ps ≡ some set
      → new_each api.new ps ≡ some res
      → api.set_matches set line ≡ matching_from (λ re. api.is_match re line) 0 res
  -- `replace_all` borrows exactly where there is no match.
  pub replace_all_borrows :
      (re : api.Re) (line template : Text)
      → api.is_match re line ≡ false
      → api.replace_all re line template ≡ none
  pub replace_all_owns :
      (re : api.Re) (line template : Text)
      → api.is_match re line ≡ true
      → (s : Text) × (api.replace_all re line template ≡ some s)
  -- A match is a part of the text.
  pub find_splits :
      (re : api.Re) (line pre m post : Text)
      → api.find re line ≡ some (pre, m, post)
      → pre ++ (m ++ post) ≡ line
