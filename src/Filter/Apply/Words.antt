-- ===== src/Filter/Apply/Words.antt =====
-- `SubstituteWords` and `preserve_case` of crates/jkr-filter/src/rules.rs. The case tables of
-- Unicode are a parameter.
use tkr.Prelude.{
  ℕ, Bool, Option, none, some, List, [], ◌∷◌, ◌++◌, ◌&&◌, not, Text, length, any, all, leb, text_eq,
  if◌then◌else◌,
}
use tkr.Filter.Regex.{RegexApi}
use tkr.Filter.Compiled.{FilterResult}

-- `char::is_alphabetic`, `char::is_uppercase`, `char::to_uppercase`, and those of `str`.
pub record CaseApi : Type 0 where
  pub is_alphabetic : ℕ → Bool
  pub is_uppercase : ℕ → Bool
  pub char_to_uppercase : ℕ → Text
  pub to_uppercase : Text → Text
  pub to_lowercase : Text → Text

-- `dict.get(key)`
unfoldable pub dict_get : Text → List (Text × Text) → Option Text
dict_get key [] = none
dict_get key ((k, v) ∷ dict) = if text_eq k key then some v else dict_get key dict

unfoldable pub keep_if : (ℕ → Bool) → Text → Text
keep_if p [] = []
keep_if p (c ∷ cs) = if p c then c ∷ keep_if p cs else keep_if p cs

module _ (case : CaseApi) where
  open case use {is_alphabetic, is_uppercase, char_to_uppercase, to_uppercase, to_lowercase}

  unfoldable pub capitalize : Text → Text
  capitalize [] = []
  capitalize (a ∷ abbreviation) = char_to_uppercase a ++ abbreviation

  unfoldable pub is_capitalized : Text → Bool
  is_capitalized [] = Bool.false
  is_capitalized (first ∷ tail) = is_uppercase first && not (any is_uppercase tail)

  unfoldable pub preserve_case : Text → Text → Text
  unfolding keep_if capitalize is_capitalized
  preserve_case original abbreviation =
      let alpha_chars = keep_if is_alphabetic original in
      if leb 2 (length alpha_chars) && all is_uppercase alpha_chars
      then to_uppercase abbreviation
      else if is_capitalized original
      then capitalize abbreviation
      else abbreviation

  unfoldable pub substitute : List (Text × Text) → Text → Text
  unfolding dict_get preserve_case
  substitute dict matched = elim (dict_get (to_lowercase matched) dict) [
    | some abbreviation ↦ preserve_case matched abbreviation
    | none ↦ matched
  ]

  module _ (api : RegexApi) where
    open api use {Re, replace_all_with}

    unfoldable pub apply_substitute_words : Re → List (Text × Text) → Text → Option FilterResult
    unfolding substitute
    apply_substitute_words re dict line = elim (replace_all_with re line (substitute dict)) [
      | none ↦ none
      | some s ↦ some (FilterResult.replace s)
    ]
