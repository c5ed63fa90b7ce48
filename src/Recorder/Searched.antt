-- ===== src/Recorder/Searched.antt =====
-- What the searches of crates/jkr-session-recorder/src/scrub.rs say of a line.
use tkr.Prelude.{
  ℕ, zero, suc, ◌+◌, ◌≤◌, ◌≡◌, refl, ap, subst, ◌∙◌, Bool, true, false, none, some, List, [], ◌∷◌,
  ◌++◌, Text, any, all, length, take, starts_with, contains, to_ascii_lowercase, text_eq,
  text_eq_refl, arith, Bool-cases, inl, inr,
}
use tkr.Recorder.Scrub.{find_from, count_while, count_of}
use tkr.Recorder.Found.{IsFirst}

starts_with-split :
    (s pattern : Text) → starts_with s pattern ≡ true → (behind : Text) × (s ≡ pattern ++ behind)
unfolding starts_with
starts_with-split s [] h = (s, refl)
starts_with-split [] (p ∷ pattern) h = absurd (ground (arith, h))
starts_with-split (c ∷ s) (p ∷ pattern) h =
    let (behind, e) = starts_with-split s pattern (ground (arith, h)) in
    let same : c ≡ p = ground (arith, h) in (behind, ap (λ d. d ∷ s) same ∙ ap (◌∷◌ p) e)

pub contains-split :
    (line pattern : Text)
    → contains line pattern ≡ true
    → (front behind : Text) × (line ≡ front ++ (pattern ++ behind))
unfolding contains
contains-split [] pattern h = let (behind, e) = starts_with-split [] pattern h in ([], behind, e)
contains-split (c ∷ line) pattern h = elim (Bool-cases (starts_with (c ∷ line) pattern)) [
  | inl here ↦ let (behind, e) = starts_with-split (c ∷ line) pattern here in ([], behind, e)
  | inr later ↦
      let (front, behind, e) = contains-split line pattern (ground (arith, h, later)) in
      (c ∷ front, behind, ap (◌∷◌ c) e)
]

-- Where the search ends.
pub find_from-split :
    (n : ℕ) (line pattern : Text) (i : ℕ)
    → find_from n line pattern ≡ some i
    → (front behind : Text) × (line ≡ front ++ (pattern ++ behind))
      × IsFirst pattern front behind
      × (i ≡ n + length front)
unfolding find_from IsFirst
find_from-split n [] pattern i h = elim (Bool-cases (starts_with [] pattern)) [
  | inl here ↦
      let (behind, e) = starts_with-split [] pattern here in
      ([], behind, e, tt, ground (arith, h, here))
  | inr missed ↦ absurd (ground (arith, h, missed))
]
find_from-split n (c ∷ line) pattern i h = elim (Bool-cases (starts_with (c ∷ line) pattern)) [
  | inl here ↦
      let (behind, e) = starts_with-split (c ∷ line) pattern here in
      ([], behind, e, tt, ground (arith, h, here))
  | inr missed ↦
      let (front, behind, e, is_first, place) =
        find_from-split (n + 1) line pattern i (ground (arith, h, missed)) in
      (
        c ∷ front,
        behind,
        ap (◌∷◌ c) e,
        (subst (λ l. starts_with (c ∷ l) pattern ≡ false) e missed, is_first),
        omega (arith, place),
      )
]

pub find_from-absent :
    (n : ℕ) (line pattern : Text) → find_from n line pattern ≡ none → contains line pattern ≡ false
unfolding contains find_from
find_from-absent n [] pattern h = ground (arith, h)
find_from-absent n (c ∷ line) pattern h = ground (arith, h, find_from-absent (n + 1) line pattern)

pub all-take : (p : ℕ → Bool) (n : ℕ) (s : Text) → n ≤ count_while p s → all p (take n s) ≡ true
unfolding count_while
all-take p zero s h = refl
all-take p (suc n) [] h = refl
all-take p (suc n) (c ∷ s) h = ground (arith, h, all-take p n s)

pub count_while-length : (p : ℕ → Bool) (s : Text) → count_while p s ≤ length s
unfolding count_while
count_while-length p [] = omega arith
count_while-length p (c ∷ s) = ground (arith, count_while-length p s)

pub count_of-length : (p : ℕ → Bool) (s : Text) → count_of p s ≤ length s
unfolding count_of
count_of-length p [] = omega arith
count_of-length p (c ∷ s) = ground (arith, count_of-length p s)

pub count_of-all : (p : ℕ → Bool) (s : Text) → length s ≤ count_of p s → all p s ≡ true
unfolding count_of
count_of-all p [] h = refl
count_of-all p (c ∷ s) h = ground (arith, h, count_of-length p s, count_of-all p s)

pub any-found :
    (test : Text → Bool) (texts : List Text)
    → any test texts ≡ true
    → (s : Text) × (any (text_eq s) texts ≡ true) × (test s ≡ true)
any-found test [] h = absurd (ground (arith, h))
any-found test (t ∷ texts) h = elim (Bool-cases (test t)) [
  | inl holds ↦ (t, rw (text_eq_refl t) refl, holds)
  | inr fails ↦
      let (s, listed, holds) = any-found test texts (ground (arith, h, fails)) in
      (s, ground (arith, listed), holds)
]

pub lowercase-split :
    (line a b : Text)
    → to_ascii_lowercase line ≡ a ++ b
    → (x y : Text) × (line ≡ x ++ y) × (to_ascii_lowercase x ≡ a) × (to_ascii_lowercase y ≡ b)
unfolding to_ascii_lowercase
lowercase-split line [] b h = ([], line, refl, refl, h)
lowercase-split [] (d ∷ a) b h = absurd (ground (arith, h))
lowercase-split (c ∷ line) (d ∷ a) b h =
    let (x, y, e, ea, eb) = lowercase-split line a b (ground (arith, h)) in
    (c ∷ x, y, ap (◌∷◌ c) e, ground (arith, h, ea), eb)
