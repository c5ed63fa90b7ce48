-- ===== src/Samples/Regexes.antt =====
-- Regular expressions of the form `^literal(.*)$`, given as the literal.
use tkr.Prelude.{
  ◌≡◌, refl, Bool, true, false, Option, none, some, List, [], ◌∷◌, ◌++◌, Text, any, length, drop,
  starts_with, if◌then◌else◌, ◌==◌, append-nil, arith, sym, ap, ◌∙◌,
}
use tkr.Filter.Regex.{RegexApi, RegexLaws, Captures, new_each, matching_from}

abbrev pub groups : Text → Text → Captures
groups re line i =
    if i == 0 then some line else if i == 1 then some (drop (length re) line) else none

abbrev pub if_match {ℓ} : {A : Type ℓ} → Text → Text → A → Option A
if_match re line a = if starts_with line re then some a else none

abbrev pub literals : RegexApi
literals = record {
  Re = Text;
  ReSet = List Text;
  new = λ p. some p;
  new_case_insensitive = λ p. some p;
  new_set = λ ps. some ps;
  escape = λ p. p;
  is_match = λ re line. starts_with line re;
  find = λ re line. if_match re line ([], line, []);
  captures = λ re line. if_match re line (groups re line);
  replace_all = λ re line template. if_match re line template;
  replace_all_with = λ re line f. if_match re line (f line);
  set_is_match = λ set line. any (λ re. starts_with line re) set;
  set_matches = λ set line. matching_from (λ re. starts_with line re) 0 set;
}

new_each-some : (ps : List Text) → new_each literals.new ps ≡ some ps
unfolding new_each
new_each-some [] = refl
new_each-some (p ∷ ps) = rw (new_each-some ps) refl

same_list :
    (ps set res : List Text)
    → literals.new_set ps ≡ some set
    → new_each literals.new ps ≡ some res
    → set ≡ res
same_list ps set res h h' = ground (arith, sym h ∙ (sym (new_each-some ps) ∙ h'))

splits :
    (line pre m post : Text) (b : Bool)
    → if◌then◌else◌ {A = Option (Text × Text × Text)} b (some ([], line, [])) none
      ≡ some (pre, m, post)
    → pre ++ (m ++ post) ≡ line
splits line pre m post true h =
    let parts : (pre, m, post) ≡ ([], line, []) = ground (arith, h) in
    ap (λ (t : Text × Text × Text). t.0 ++ (t.1 ++ t.2)) parts ∙ append-nil line
splits line pre m post false h = absurd (ground (arith, h))

pub literal_laws : RegexLaws literals
literal_laws = record {
  set_is_match_any = λ ps set res line h h'.
      ap (λ (xs : List Text). any (λ re. starts_with line re) xs) (same_list ps set res h h');
  set_matches_ascending = λ ps set res line h h'.
      ap (λ (xs : List Text). matching_from (λ re. starts_with line re) 0 xs)
        (same_list ps set res h h');
  replace_all_borrows = λ re line template h. ground (arith, h);
  replace_all_owns = λ re line template h. (template, ground (arith, h));
  find_splits = λ re line pre m post h. splits line pre m post (starts_with line re) h;
}
