-- ===== src/Lines.antt =====
-- `str::lines`, and the lines that are not blank.
use tkr.Prelude.{
  ℕ, ◌≡◌, refl, false, ◌&&◌, List, [], ◌∷◌, ◌++◌, Text, is_blank, ◌==◌, if◌then◌else◌, All, arith,
  ap, ◌∙◌,
}

-- A carriage return directly before a line feed belongs to the end of the line.
unfoldable pub drop_cr : Text → Text
drop_cr [] = []
drop_cr (c ∷ []) = c ∷ []
drop_cr (c ∷ d ∷ cs) = let rest = drop_cr (d ∷ cs) in if c == 13 && d == 10 then rest else c ∷ rest

abbrev cons_first : ℕ → List Text → List Text
cons_first c [] = (c ∷ []) ∷ []
cons_first c (line ∷ lines) = (c ∷ line) ∷ lines

unfoldable pub split_lines : Text → List Text
split_lines [] = []
split_lines (c ∷ cs) = let rest = split_lines cs in if c == 10 then [] ∷ rest else cons_first c rest

-- str::lines
unfoldable pub lines_of : Text → List Text
unfolding drop_cr split_lines
lines_of s = split_lines (drop_cr s)

unfoldable pub drop_blank : List Text → List Text
unfolding is_blank
drop_blank [] = []
drop_blank (line ∷ lines) =
    let rest = drop_blank lines in if is_blank line then rest else line ∷ rest

unfoldable pub nonblank_lines : Text → List Text
unfolding lines_of drop_blank
nonblank_lines s = drop_blank (lines_of s)

-- No character that ends a line.
unfoldable pub IsLine : Text → Type 0
IsLine s = All (λ c. ((c == 13) ≡ false) × ((c == 10) ≡ false)) s

drop_cr-line : (line s : Text) → IsLine line → drop_cr (line ++ 10 ∷ s) ≡ line ++ 10 ∷ drop_cr s
unfolding IsLine drop_cr
drop_cr-line [] [] h = refl
drop_cr-line [] (d ∷ s) h = refl
drop_cr-line (c ∷ []) s h = rw (h.0.0) (ap (◌∷◌ c) (drop_cr-line [] s tt))
drop_cr-line (c ∷ d ∷ line) s h = rw (h.0.0) (ap (◌∷◌ c) (drop_cr-line (d ∷ line) s h.1))

split_lines-line :
    (line s : Text) → IsLine line → split_lines (line ++ 10 ∷ s) ≡ line ∷ split_lines s
unfolding IsLine split_lines
split_lines-line [] s h = refl
split_lines-line (c ∷ line) s h = rw (h.0.1) (ap (cons_first c) (split_lines-line line s h.1))

-- The lines behind a line that is ended.
pub nonblank_lines-line :
    (line s : Text)
    → IsLine line
    → is_blank line ≡ false
    → nonblank_lines (line ++ 10 ∷ s) ≡ line ∷ nonblank_lines s
unfolding nonblank_lines lines_of
nonblank_lines-line line s h visible =
    ap (λ t. drop_blank (split_lines t)) (drop_cr-line line s h)
    ∙ ap drop_blank (split_lines-line line (drop_cr s) h)
    ∙ rw visible refl

drop_cr-open : (line : Text) → IsLine line → drop_cr line ≡ line
unfolding IsLine drop_cr
drop_cr-open [] h = refl
drop_cr-open (c ∷ []) h = refl
drop_cr-open (c ∷ d ∷ line) h = rw (h.0.0) (ap (◌∷◌ c) (drop_cr-open (d ∷ line) h.1))

split_lines-open :
    (c : ℕ) (line : Text) → IsLine (c ∷ line) → split_lines (c ∷ line) ≡ (c ∷ line) ∷ []
unfolding IsLine split_lines
split_lines-open c [] h = rw (h.0.1) refl
split_lines-open c (d ∷ line) h = rw (h.0.1) (ap (cons_first c) (split_lines-open d line h.1))

-- A last line that is not ended.
pub nonblank_lines-open :
    (line : Text) → IsLine line → is_blank line ≡ false → nonblank_lines line ≡ line ∷ []
unfolding nonblank_lines lines_of
nonblank_lines-open [] h visible = absurd (unfold is_blank in ground (arith, visible))
nonblank_lines-open (c ∷ line) h visible =
    ap (λ t. drop_blank (split_lines t)) (drop_cr-open (c ∷ line) h)
    ∙ ap drop_blank (split_lines-open c line h)
    ∙ rw visible refl

pub is_blank-append : (s t : Text) → is_blank s ≡ false → is_blank (s ++ t) ≡ false
unfolding is_blank
is_blank-append [] t h = absurd (ground (arith, h))
is_blank-append (c ∷ s) t h = ground (arith, h, is_blank-append s t)
