-- ===== src/Recorder/Found.antt =====
-- The searches of crates/jkr-session-recorder/src/scrub.rs in a line with a known part.
use tkr.Prelude.{
  ℕ, ◌+◌, ◌≤◌, ◌≡◌, refl, ap, ◌∙◌, Bool, true, false, ◌&&◌, none, some, List, [], ◌∷◌, ◌++◌, Text,
  any, all, length, length-append, append_assoc, take, drop, leb, if◌then◌else◌, starts_with,
  contains, to_ascii_lowercase, text_eq, text_eq_iff, subst, sym, arith, Bool-cases, inl, inr,
}
use tkr.Recorder.Scrub.{find_from, count_while, count_of}

-- No occurrence of the pattern begins within `front`, where the pattern and `behind` follow it.
unfoldable pub IsFirst : Text → Text → Text → Type 0
IsFirst pattern [] behind = Unit
IsFirst pattern (c ∷ front) behind =
    (starts_with (c ∷ (front ++ (pattern ++ behind))) pattern ≡ false)
    × IsFirst pattern front behind

starts_with-append : (pattern s : Text) → starts_with (pattern ++ s) pattern ≡ true
unfolding starts_with
starts_with-append [] [] = refl
starts_with-append [] (c ∷ s) = refl
starts_with-append (p ∷ pattern) s = ground (arith, starts_with-append pattern s)

find_from-append :
    (n : ℕ) (pattern behind : Text) → find_from n (pattern ++ behind) pattern ≡ some n
unfolding find_from starts_with
find_from-append n [] [] = refl
find_from-append n [] (c ∷ behind) = refl
find_from-append n (p ∷ pattern) behind = rw (starts_with-append (p ∷ pattern) behind) refl

-- The search gives the place of the first occurrence.
pub find_from-first :
    (n : ℕ) (front pattern behind : Text)
    → IsFirst pattern front behind
    → find_from n (front ++ (pattern ++ behind)) pattern ≡ some (n + length front)
unfolding find_from IsFirst
find_from-first n [] pattern behind h =
    let e : n ≡ n + 0 = omega arith in find_from-append n pattern behind ∙ ap some e
find_from-first n (c ∷ front) pattern behind h =
    let e : (n + 1) + length front ≡ n + length (c ∷ front) = omega arith in
    rw (h.0) (find_from-first (n + 1) front pattern behind h.1 ∙ ap some e)

pub contains-part :
    (front pattern behind : Text) → contains (front ++ (pattern ++ behind)) pattern ≡ true
unfolding contains starts_with
contains-part [] [] [] = refl
contains-part [] [] (c ∷ behind) = refl
contains-part [] (p ∷ pattern) behind = rw (starts_with-append (p ∷ pattern) behind) refl
contains-part (c ∷ front) pattern behind = ground (arith, contains-part front pattern behind)

pub find_from-missing :
    (n : ℕ) (line pattern : Text) → contains line pattern ≡ false → find_from n line pattern ≡ none
unfolding contains find_from
find_from-missing n [] pattern h = rw h refl
find_from-missing n (c ∷ line) pattern h = ground (arith, h, find_from-missing (n + 1) line pattern)

drop-length-append : (s t : Text) → drop (length s) (s ++ t) ≡ t
drop-length-append [] t = refl
drop-length-append (c ∷ s) t = drop-length-append s t

pub drop-front :
    (front pattern s : Text) → drop (length front + length pattern) (front ++ (pattern ++ s)) ≡ s
drop-front front pattern s =
    ap (λ n. drop n (front ++ (pattern ++ s))) (sym (length-append front pattern))
    ∙ ap (drop (length (front ++ pattern))) (sym (append_assoc front pattern s))
    ∙ drop-length-append (front ++ pattern) s

pub take-token : (token s : Text) → take (length token) (token ++ s) ≡ token
take-token [] s = refl
take-token (c ∷ token) s = ap (◌∷◌ c) (take-token token s)

pub count_while-token :
    (p : ℕ → Bool) (token s : Text) → all p token ≡ true → length token ≤ count_while p (token ++ s)
unfolding count_while
count_while-token p [] s h = omega arith
count_while-token p (c ∷ token) s h = ground (arith, h, count_while-token p token s)

pub count_of-token :
    (p : ℕ → Bool) (token : Text) → all p token ≡ true → count_of p token ≡ length token
unfolding count_of
count_of-token p [] h = refl
count_of-token p (c ∷ token) h = ground (arith, h, count_of-token p token)

pub lowercase-append :
    (s t : Text) → to_ascii_lowercase (s ++ t) ≡ to_ascii_lowercase s ++ to_ascii_lowercase t
unfolding to_ascii_lowercase
lowercase-append [] t = refl
lowercase-append (c ∷ s) t =
    ap (◌∷◌ (if leb b'A' c && leb c b'Z' then c + 32 else c)) (lowercase-append s t)

pub length-lowercase : (s : Text) → length (to_ascii_lowercase s) ≡ length s
unfolding to_ascii_lowercase
length-lowercase [] = refl
length-lowercase (c ∷ s) = ground (arith, length-lowercase s)

-- A test that holds of a text of the list.
pub any-listed :
    (test : Text → Bool) (s : Text) (texts : List Text)
    → any (text_eq s) texts ≡ true
    → test s ≡ true
    → any test texts ≡ true
any-listed test s [] listed holds = listed
any-listed test s (t ∷ texts) listed holds = elim (Bool-cases (text_eq s t)) [
  | inl same ↦
      let e : test t ≡ true = subst (λ u. test u ≡ true) ((text_eq_iff s t).0 same) holds in
      rw e refl
  | inr differ ↦ ground (arith, listed, differ, any-listed test s texts)
]
