-- ===== src/Filter/Coalesce/Equivalence.antt =====
-- `compile_group` of crates/jkr-filter/src/rules.rs against its rules compiled one by one.
use tkr.Prelude.{
  ℕ, zero, suc, ◌≤◌, ◌≡◌, ◌≢◌, refl, sym, ap, ◌∙◌, subst, Option, some, List, [], ◌∷◌, ◌++◌, map,
  Text, length, arith,
}
use tkr.Filter.Regex.{RegexApi, RegexLaws, new_each}
use tkr.Filter.Rule.{Rule}
use tkr.Filter.Compiled.{FilterResult, CompiledRule}
use tkr.Filter.Apply.Words.{CaseApi}
use tkr.Filter.Compile.{
  Result, ok, err, ◌>>=◌, out_of_fuel, built, take_suppress, take_truncate, compile, compile_words,
  compile_pairs, compile_suppress_run, compile_truncate_run, compile_loop, compile_group,
}
use tkr.Filter.Plugin.{apply_rules, flush_rules}
use tkr.Filter.Coalesce.Related.{
  Coalesced, nil, same, suppressed, truncated, single_suppress, single_truncate,
  apply_rules-Coalesced, flush_rules-Coalesced,
}
use tkr.Filter.Coalesce.Sources.{
  succeeded, cons-eq-ok, built-eq-ok, ok-injective, take_suppress_lem, take_truncate_lem,
  compile_each, compile_each-cons, compile_each-suppress, compile_each-truncate,
  new_each-compile_pairs,
}

module _ (case : CaseApi) (api : RegexApi) where
  open api use {Re, ReSet, is_match, new, new_set}

  abbrev Rules : Type 0
  Rules = List (CompiledRule Re ReSet)

  -- What a group answers to the lines of one command, and its rules after the last line.
  unfoldable pub feed : Rules → List Text → List (Option FilterResult) × Rules
  unfolding apply_rules
  feed rules [] = ([], rules)
  feed rules (line ∷ lines) =
      let (opinion, rules') = apply_rules case api rules line in
      let (opinions, rules'') = feed rules' lines in (opinion ∷ opinions, rules'')

  module _ (laws : RegexLaws api) where
    open laws use {set_is_match_any, set_matches_ascending}

    single-suppress :
        (p : Text) (rule : CompiledRule Re ReSet) (res : List Re)
        → compile_suppress_run case api p [] ≡ ok rule
        → new_each new (p ∷ []) ≡ some res
        → rule ∷ [] ≡ map (single_suppress case api) res
    unfolding compile_suppress_run new_each
    single-suppress p rule [] h news = ground arith
    single-suppress p rule (re ∷ []) h news = ground arith
    single-suppress p rule (re ∷ _ ∷ _) h news = ground arith

    single-truncate :
        (p : Text × Text) (rule : CompiledRule Re ReSet) (rules : List (Re × Text))
        → compile_truncate_run case api p [] ≡ ok rule
        → compile_pairs case api (p ∷ []) ≡ ok rules
        → rule ∷ [] ≡ map (single_truncate case api) rules
    unfolding compile_truncate_run compile_pairs
    single-truncate p rule [] h news = ground arith
    single-truncate p rule (r ∷ []) h news = ground arith
    single-truncate p rule (r ∷ _ ∷ _) h news = ground arith

    -- A run of patterns becomes one rule that stands for the single rules.
    Coalesced-suppress :
        (p : Text) (patterns : List Text) (rule : CompiledRule Re ReSet) (res : List Re)
        (xs ys : Rules)
        → compile_suppress_run case api p patterns ≡ ok rule
        → new_each new (p ∷ patterns) ≡ some res
        → Coalesced case api xs ys
        → Coalesced case api (rule ∷ xs) (map (single_suppress case api) res ++ ys)
    unfolding compile_suppress_run
    Coalesced-suppress p [] rule res xs ys h news related =
        subst (λ front. Coalesced case api (rule ∷ xs) (front ++ ys))
          (single-suppress p rule res h news) (same rule related)
    Coalesced-suppress p (q ∷ qs) rule res xs ys h news related =
        let (set, built_set, h') = succeeded (built (new_set (p ∷ q ∷ qs))) _ h in
        subst (λ r. Coalesced case api (r ∷ xs) (map (single_suppress case api) res ++ ys))
          (ok-injective h')
          (suppressed set res
            (λ line. set_is_match_any (p ∷ q ∷ qs) set res line (built-eq-ok _ built_set) news)
            related)

    Coalesced-truncate :
        (p : Text × Text) (pairs : List (Text × Text)) (rule : CompiledRule Re ReSet)
        (rules : List (Re × Text)) (xs ys : Rules)
        → compile_truncate_run case api p pairs ≡ ok rule
        → compile_pairs case api (p ∷ pairs) ≡ ok rules
        → Coalesced case api xs ys
        → Coalesced case api (rule ∷ xs) (map (single_truncate case api) rules ++ ys)
    unfolding compile_truncate_run
    Coalesced-truncate p [] rule rules xs ys h each related =
        subst (λ front. Coalesced case api (rule ∷ xs) (front ++ ys))
          (single-truncate p rule rules h each) (same rule related)
    Coalesced-truncate p (q ∷ qs) rule rules xs ys h each related =
        let all = p ∷ q ∷ qs in
        let patterns = map (λ (r : Text × Text). r.0) all in
        let (precheck, built_set, h') = succeeded (built (new_set patterns)) _ h in
        let (rules', each', h'') = succeeded (compile_pairs case api all) _ h' in
        let agreed : CompiledRule.truncate_match_set precheck rules ≡ rule =
          ap (CompiledRule.truncate_match_set precheck) (ok-injective (sym each ∙ each'))
          ∙ ok-injective h'' in
        subst (λ r. Coalesced case api (r ∷ xs) (map (single_truncate case api) rules ++ ys)) agreed
          (truncated precheck rules
            (λ line.
              set_matches_ascending patterns precheck (map (λ r. r.0) rules) line
                (built-eq-ok _ built_set) (new_each-compile_pairs case api all rules each))
            related)

    compile_loop-Coalesced :
        (fuel : ℕ) (rules : List Rule) (out each : Rules)
        → compile_loop case api fuel rules ≡ ok out
        → compile_each case api rules ≡ ok each
        → Coalesced case api out each
    unfolding compile_loop compile_each
    compile_loop-Coalesced fuel [] out each h k = rw (← ok-injective h, ← ok-injective k) nil
    compile_loop-Coalesced zero (rule ∷ rules) out each h k = cc
    compile_loop-Coalesced (suc fuel) (Rule.suppress_regex p ∷ rules) out each h k =
        let (patterns, rest) = take_suppress rules in
        let (whole, _) = take_suppress_lem rules in
        let (rule, out', made, looped, e) =
          cons-eq-ok (compile_suppress_run case api p patterns) (compile_loop case api fuel rest)
            h in
        let (res, each', news, single, e') =
          compile_each-suppress case api (p ∷ patterns) rest each
            (ap (λ rs. compile_each case api (Rule.suppress_regex p ∷ rs)) whole ∙ k) in
        rw (e, e')
          (Coalesced-suppress p patterns rule res out' each' made news
            (compile_loop-Coalesced fuel rest out' each' looped single))
    compile_loop-Coalesced (suc fuel) (Rule.truncate_match p t ∷ rules) out each h k =
        let (pairs, rest) = take_truncate rules in
        let (whole, _) = take_truncate_lem rules in
        let (rule, out', made, looped, e) =
          cons-eq-ok (compile_truncate_run case api (p, t) pairs) (compile_loop case api fuel rest)
            h in
        let (compiled, each', news, single, e') =
          compile_each-truncate case api ((p, t) ∷ pairs) rest each
            (ap (λ rs. compile_each case api (Rule.truncate_match p t ∷ rs)) whole ∙ k) in
        rw (e, e')
          (Coalesced-truncate (p, t) pairs rule compiled out' each' made news
            (compile_loop-Coalesced fuel rest out' each' looped single))
    compile_loop-Coalesced (suc fuel) (other ∷ rules) out each h k =
        let (rule, out', made, looped, e) =
          cons-eq-ok (compile case api other) (compile_loop case api fuel rules) h in
        let (rule', each', made', single, e') = compile_each-cons case api other rules each k in
        let agreed : rule ≡ rule' = ok-injective (sym made ∙ made') in
        rw (e, e', agreed) (same rule' (compile_loop-Coalesced fuel rules out' each' looped single))

    feed-Coalesced :
        (lines : List Text) (xs ys : Rules)
        → Coalesced case api xs ys
        → ((feed xs lines).0 ≡ (feed ys lines).0)
          × Coalesced case api (feed xs lines).1 (feed ys lines).1
    unfolding feed
    feed-Coalesced [] xs ys related = (refl, related)
    feed-Coalesced (line ∷ lines) xs ys related =
        let (opinion, related') = apply_rules-Coalesced case api laws related line in
        let (opinions, related'') = feed-Coalesced lines _ _ related' in
        (λ i. opinion i ∷ opinions i, related'')

    -- If the rules of a group compile, coalesced and one by one, then the two groups give every
    -- line of every sequence of lines the same opinion, and the same summary at the end.
    pub compile_group-eq-compile_each :
        (rules : List Rule) (out each : Rules) (lines : List Text)
        → compile_group case api rules ≡ ok out
        → compile_each case api rules ≡ ok each
        → ((feed out lines).0 ≡ (feed each lines).0)
          × (flush_rules [] (feed out lines).1 ≡ flush_rules [] (feed each lines).1)
    unfolding compile_group
    compile_group-eq-compile_each rules out each lines h k =
        let related = compile_loop-Coalesced (length rules) rules out each h k in
        let (opinions, related') = feed-Coalesced lines out each related in
        (opinions, flush_rules-Coalesced case api related' [])

  compile_words-fuel : (pairs : List (Text × Text)) → compile_words case api pairs ≢ err out_of_fuel
  unfolding compile_words
  compile_words-fuel [] h = cc
  compile_words-fuel (p ∷ ps) h = ground arith

  compile-fuel : (rule : Rule) → compile case api rule ≢ err out_of_fuel
  unfolding compile
  compile-fuel (Rule.substitute_words pairs) h = compile_words-fuel pairs h
  compile-fuel _ h = ground arith

  compile_pairs-fuel : (pairs : List (Text × Text)) → compile_pairs case api pairs ≢ err out_of_fuel
  unfolding compile_pairs
  compile_pairs-fuel [] h = cc
  compile_pairs-fuel ((p, t) ∷ pairs) h = ground (arith, compile_pairs-fuel pairs)

  compile_suppress_run-fuel :
      (p : Text) (ps : List Text) → compile_suppress_run case api p ps ≢ err out_of_fuel
  unfolding compile_suppress_run
  compile_suppress_run-fuel p [] h = ground arith
  compile_suppress_run-fuel p (q ∷ ps) h = ground arith

  compile_truncate_run-fuel :
      (p : Text × Text) (ps : List (Text × Text))
      → compile_truncate_run case api p ps ≢ err out_of_fuel
  unfolding compile_truncate_run
  compile_truncate_run-fuel p [] h = ground arith
  compile_truncate_run-fuel p (q ∷ ps) h = ground (arith, compile_pairs-fuel (p ∷ q ∷ ps))

  cons-fuel :
      (m : Result (CompiledRule Re ReSet)) (ms : Result Rules)
      → m ≢ err out_of_fuel
      → ms ≢ err out_of_fuel
      → (m >>= λ a. ms >>= λ rest. ok (a ∷ rest)) ≢ err out_of_fuel
  cons-fuel (ok a) (ok rest) h k e = cc
  cons-fuel (ok a) (err x) h k e = k (cc)
  cons-fuel (err x) ms h k e = h (cc)

  compile_loop-fuel :
      (fuel : ℕ) (rules : List Rule)
      → length rules ≤ fuel
      → compile_loop case api fuel rules ≢ err out_of_fuel
  unfolding compile_loop
  compile_loop-fuel fuel [] h = λ e. cc
  compile_loop-fuel zero (rule ∷ rules) h = absurd (omega arith)
  compile_loop-fuel (suc fuel) (Rule.suppress_regex p ∷ rules) h =
      let (patterns, rest) = take_suppress rules in
      let (_, shorter) = take_suppress_lem rules in
      cons-fuel (compile_suppress_run case api p patterns) (compile_loop case api fuel rest)
        (compile_suppress_run-fuel p patterns) (compile_loop-fuel fuel rest (omega arith))
  compile_loop-fuel (suc fuel) (Rule.truncate_match p t ∷ rules) h =
      let (pairs, rest) = take_truncate rules in
      let (_, shorter) = take_truncate_lem rules in
      cons-fuel (compile_truncate_run case api (p, t) pairs) (compile_loop case api fuel rest)
        (compile_truncate_run-fuel (p, t) pairs) (compile_loop-fuel fuel rest (omega arith))
  compile_loop-fuel (suc fuel) (other ∷ rules) h =
      cons-fuel (compile case api other) (compile_loop case api fuel rules) (compile-fuel other)
        (compile_loop-fuel fuel rules (omega arith))

  -- The loop of `compile_group` ends by itself: as many rounds as there are rules are enough.
  pub compile_group-terminates :
      (rules : List Rule) → compile_group case api rules ≢ err out_of_fuel
  unfolding compile_group
  compile_group-terminates rules = compile_loop-fuel (length rules) rules (omega arith)
