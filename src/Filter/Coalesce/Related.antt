-- ===== src/Filter/Coalesce/Related.antt =====
-- Lists of compiled rules that behave alike: a set stands for the single rules that it replaces.
use tkr.Prelude.{
  ℕ, suc, ◌≡◌, refl, sym, ◌∙◌, Option, none, some, List, [], ◌∷◌, ◌++◌, map, append_assoc, Text,
  length, length-append, get_elem?, any, arith, inl, inr, Bool-cases, if◌then◌else◌,
}
use tkr.Filter.Regex.{RegexApi, RegexLaws, matching_from}
use tkr.Filter.Compiled.{FilterResult, CompiledRule}
use tkr.Filter.Apply.{suppress_if, replaced, apply, apply_truncate_match_set}
use tkr.Filter.Apply.Words.{CaseApi}
use tkr.Filter.Plugin.{apply_rules, flush_rules}

get_elem?-append_length {ℓ} :
    {A : Type ℓ} (before : List A) (x : A) (xs : List A)
    → get_elem? (before ++ x ∷ xs) (length before) ≡ some x
get_elem?-append_length [] x xs = refl
get_elem?-append_length (b ∷ before) x xs = get_elem?-append_length before x xs

module _ (case : CaseApi) (api : RegexApi) where
  open api use {Re, ReSet, is_match, set_is_match, set_matches, replace_all}

  abbrev Rules : Type 0
  Rules = List (CompiledRule Re ReSet)

  abbrev pub single_suppress : Re → CompiledRule Re ReSet
  single_suppress re = CompiledRule.suppress_regex re

  abbrev pub single_truncate : Re × Text → CompiledRule Re ReSet
  single_truncate rule = CompiledRule.truncate_match rule.0 rule.1

  -- The set before the bar stands for the single rules after it.
  pub data Coalesced : Rules → Rules → Type 0 where
    nil : Coalesced [] []
    same :
        {xs ys : Rules} (rule : CompiledRule Re ReSet)
        → Coalesced xs ys
        → Coalesced (rule ∷ xs) (rule ∷ ys)
    suppressed :
        {xs ys : Rules} (set : ReSet) (res : List Re)
        → ((line : Text) → set_is_match set line ≡ any (λ re. is_match re line) res)
        → Coalesced xs ys
        → Coalesced (CompiledRule.suppress_regex_set set ∷ xs) (map single_suppress res ++ ys)
    truncated :
        {xs ys : Rules} (precheck : ReSet) (rules : List (Re × Text))
        → ((line : Text)
            → set_matches precheck line
              ≡ matching_from (λ re. is_match re line) 0 (map (λ rule. rule.0) rules))
        → Coalesced xs ys
        → Coalesced
            (CompiledRule.truncate_match_set precheck rules ∷ xs)
            (map single_truncate rules ++ ys)

  -- What the rules behind `front` do with a line that `front` defers.
  abbrev behind : Rules → Option FilterResult × Rules → Option FilterResult × Rules
  behind front r = (r.0, front ++ r.1)

  -- The clause of `apply_rules` for a first rule with an opinion, or none.
  abbrev first_of_rules :
      Option FilterResult
      → CompiledRule Re ReSet
      → Rules
      → Option FilterResult × Rules
      → Option FilterResult × Rules
  first_of_rules opinion rule' rules later = elim opinion [
    | some result ↦ (some result, rule' ∷ rules)
    | none ↦ (later.0, rule' ∷ later.1)
  ]

  -- The same for a run of rules that stay as they are.
  abbrev first_of_run :
      Option FilterResult
      → Rules
      → Rules
      → Option FilterResult × Rules
      → Option FilterResult × Rules
  first_of_run opinion front rules later = elim opinion [
    | some result ↦ (some result, front ++ rules)
    | none ↦ behind front later
  ]

  apply_rules-suppress :
      (res : List Re) (ys : Rules) (line : Text)
      → apply_rules case api (map single_suppress res ++ ys) line
        ≡ first_of_run
            (suppress_if (any (λ re. is_match re line) res))
            (map single_suppress res)
            ys
            (apply_rules case api ys line)
  unfolding apply_rules apply
  apply_rules-suppress [] ys line = refl
  apply_rules-suppress (re ∷ res) ys line = ground (arith, apply_rules-suppress res ys line)

  -- The replacement of the first rule that matches.
  first_replacement : List (Re × Text) → Text → Option FilterResult
  first_replacement [] line = none
  first_replacement ((re, template) ∷ rules) line =
      if is_match re line
      then replaced (replace_all re line template)
      else first_replacement rules line

  abbrev pick : List ℕ → List (Re × Text) → Text → Option FilterResult
  pick matching rules line = elim matching [
    | [] ↦ none
    | i ∷ _ ↦ elim (get_elem? rules i) [
      | none ↦ none
      | some (re, template) ↦ replaced (replace_all re line template)
    ]
  ]

  pick-first :
      (before rules : List (Re × Text)) (line : Text)
      → pick
          (matching_from (λ re. is_match re line) (length before) (map (λ rule. rule.0) rules))
          (before ++ rules)
          line
        ≡ first_replacement rules line
  unfolding first_replacement matching_from
  pick-first before [] line = refl
  pick-first before ((re, template) ∷ rules) line = elim (Bool-cases (is_match re line)) [
    | inl hit ↦ ground (arith, get_elem?-append_length before (re, template) rules)
    | inr miss ↦
        let regroup : (before ++ (re, template) ∷ []) ++ rules ≡ before ++ (re, template) ∷ rules =
          append_assoc before ((re, template) ∷ []) rules in
        let longer : length (before ++ (re, template) ∷ []) ≡ suc (length before) =
          omega (arith, length-append before ((re, template) ∷ [])) in
        rw miss (rw (regroup, longer) at (pick-first (before ++ (re, template) ∷ []) rules line))
  ]

  module _ (laws : RegexLaws api) where
    open laws use {replace_all_borrows, replace_all_owns}

    apply_rules-truncate :
        (rules : List (Re × Text)) (ys : Rules) (line : Text)
        → apply_rules case api (map single_truncate rules ++ ys) line
          ≡ first_of_run
              (first_replacement rules line)
              (map single_truncate rules)
              ys
              (apply_rules case api ys line)
    unfolding apply_rules apply first_replacement
    apply_rules-truncate [] ys line = refl
    apply_rules-truncate ((re, template) ∷ rules) ys line = elim (Bool-cases (is_match re line)) [
      | inl hit ↦ let owned = (replace_all_owns re line template hit).1 in ground (arith, owned)
      | inr miss ↦
          ground
            (arith, replace_all_borrows re line template miss, apply_rules-truncate rules ys line)
    ]

  -- Related lists give one line the same result, and stay related.
  abbrev pub SameStep : Option FilterResult × Rules → Option FilterResult × Rules → Type 0
  SameStep r t = (r.0 ≡ t.0) × Coalesced r.1 t.1

  SameStep-rule :
      {xs ys : Rules} (opinion : Option FilterResult) (rule' : CompiledRule Re ReSet)
      {r t : Option FilterResult × Rules}
      → Coalesced xs ys
      → SameStep r t
      → SameStep (first_of_rules opinion rule' xs r) (first_of_rules opinion rule' ys t)
  SameStep-rule none rule' related later = (later.0, same rule' later.1)
  SameStep-rule (some result) rule' related later = (refl, same rule' related)

  SameStep-run :
      {xs ys : Rules} (opinion : Option FilterResult) (set : CompiledRule Re ReSet) (front : Rules)
      {r t : Option FilterResult × Rules}
      → ((us vs : Rules) → Coalesced us vs → Coalesced (set ∷ us) (front ++ vs))
      → Coalesced xs ys
      → SameStep r t
      → SameStep (first_of_rules opinion set xs r) (first_of_run opinion front ys t)
  SameStep-run none set front stands related later = (later.0, stands _ _ later.1)
  SameStep-run (some result) set front stands related later = (refl, stands _ _ related)

  module _ (laws : RegexLaws api) where
    apply_set-first :
        (precheck : ReSet) (rules : List (Re × Text)) (line : Text)
        → set_matches precheck line
          ≡ matching_from (λ re. is_match re line) 0 (map (λ rule. rule.0) rules)
        → apply_truncate_match_set case api precheck rules line ≡ first_replacement rules line
    unfolding apply_truncate_match_set
    apply_set-first precheck rules line agree =
        rw (apply_truncate_match_set, agree) (pick-first [] rules line)

    SameStep-suppressed :
        {xs ys : Rules} (set : ReSet) (res : List Re) (line : Text)
        {r : Option FilterResult × Rules}
        → ((l : Text) → set_is_match set l ≡ any (λ re. is_match re l) res)
        → Coalesced xs ys
        → SameStep r (apply_rules case api ys line)
        → SameStep
            (first_of_rules
              (suppress_if (set_is_match set line))
              (CompiledRule.suppress_regex_set set)
              xs
              r)
            (apply_rules case api (map single_suppress res ++ ys) line)
    SameStep-suppressed {ys} set res line agree related later =
        rw (agree line, apply_rules-suppress res ys line)
          (SameStep-run (suppress_if (any (λ re. is_match re line) res))
            (CompiledRule.suppress_regex_set set) (map single_suppress res)
            (λ us vs. suppressed set res agree) related later)

    SameStep-truncated :
        {xs ys : Rules} (precheck : ReSet) (rules : List (Re × Text)) (line : Text)
        {r : Option FilterResult × Rules}
        → ((l : Text)
            → set_matches precheck l
              ≡ matching_from (λ re. is_match re l) 0 (map (λ rule. rule.0) rules))
        → Coalesced xs ys
        → SameStep r (apply_rules case api ys line)
        → SameStep
            (first_of_rules
              (apply_truncate_match_set case api precheck rules line)
              (CompiledRule.truncate_match_set precheck rules)
              xs
              r)
            (apply_rules case api (map single_truncate rules ++ ys) line)
    SameStep-truncated {ys} precheck rules line agree related later =
        rw
          (
            apply_set-first precheck rules line (agree line),
            apply_rules-truncate laws rules ys line,
          )
          (SameStep-run (first_replacement rules line)
            (CompiledRule.truncate_match_set precheck rules) (map single_truncate rules)
            (λ us vs. truncated precheck rules agree) related later)

    pub apply_rules-Coalesced :
        {xs ys : Rules}
        → Coalesced xs ys
        → (line : Text) → SameStep (apply_rules case api xs line) (apply_rules case api ys line)
    unfolding apply_rules apply
    apply_rules-Coalesced nil line = (refl, nil)
    apply_rules-Coalesced (same rule related) line =
        SameStep-rule (apply case api rule line).0 (apply case api rule line).1 related
          (apply_rules-Coalesced related line)
    apply_rules-Coalesced (suppressed set res agree related) line =
        SameStep-suppressed set res line agree related (apply_rules-Coalesced related line)
    apply_rules-Coalesced (truncated precheck rules agree related) line =
        SameStep-truncated precheck rules line agree related (apply_rules-Coalesced related line)

  flush_rules-run :
      (res : List Re) (out : Text) (ys : Rules)
      → flush_rules out (map single_suppress res ++ ys) ≡ flush_rules out ys
  unfolding flush_rules
  flush_rules-run [] out ys = refl
  flush_rules-run (re ∷ res) out ys = flush_rules-run res out ys

  flush_rules-truncates :
      (rules : List (Re × Text)) (out : Text) (ys : Rules)
      → flush_rules out (map single_truncate rules ++ ys) ≡ flush_rules out ys
  unfolding flush_rules
  flush_rules-truncates [] out ys = refl
  flush_rules-truncates (r ∷ rules) out ys = flush_rules-truncates rules out ys

  -- Related lists have the same summary.
  pub flush_rules-Coalesced :
      {xs ys : Rules} → Coalesced xs ys → (out : Text) → flush_rules out xs ≡ flush_rules out ys
  unfolding flush_rules
  flush_rules-Coalesced nil out = refl
  flush_rules-Coalesced (same rule related) out = flush_rules-Coalesced related _
  flush_rules-Coalesced (suppressed {ys} set res agree related) out =
      flush_rules-Coalesced related out ∙ sym (flush_rules-run res out ys)
  flush_rules-Coalesced (truncated {ys} precheck rules agree related) out =
      flush_rules-Coalesced related out ∙ sym (flush_rules-truncates rules out ys)
