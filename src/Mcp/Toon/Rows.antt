-- ===== src/Mcp/Toon/Rows.antt =====
-- crates/jkr-mcp/src/toon.rs: what a reader of a table gets back.
use tkr.Prelude.{
  ℕ, ◌≡◌, refl, sym, ap, ◌∙◌, false, ◌||◌, List, [], ◌∷◌, ◌++◌, Text, any, ◌==◌, if◌then◌else◌,
  if_cases, subst, Bool-cases, inl, inr, arith, append_assoc, append-nil,
}
use tkr.Mcp.Toon.{escape_char, escape_chars, escape_cell, cells}

abbrev cons_cell : ℕ → List Text → List Text
cons_cell c [] = (c ∷ []) ∷ []
cons_cell c (v ∷ row) = (c ∷ v) ∷ row

abbrev unescaped : ℕ → ℕ
unescaped c = if c == b'n' then 10 else c

-- The cells of a row: a comma ends a cell, and a backslash escapes the character behind it.
unfoldable pub read_cells : Text → List Text
read_cells [] = [] ∷ []
read_cells (c ∷ []) = if c == b',' then [] ∷ [] ∷ [] else (c ∷ []) ∷ []
read_cells (c ∷ d ∷ cs) =
    let rest = read_cells cs in
    let next = read_cells (d ∷ cs) in
    if c == 92
    then cons_cell (unescaped d) rest
    else if c == b','
    then [] ∷ next
    else cons_cell c next

abbrev prepend : Text → List Text → List Text
prepend v [] = v ∷ []
prepend v (u ∷ row) = (v ++ u) ∷ row

cons_cell-prepend :
    (c : ℕ) (v : Text) (row : List Text) → cons_cell c (prepend v row) ≡ prepend (c ∷ v) row
cons_cell-prepend c v [] = refl
cons_cell-prepend c v (u ∷ row) = refl

prepend-cons_cell : (c : ℕ) (row : List Text) → prepend [] (cons_cell c row) ≡ cons_cell c row
prepend-cons_cell c [] = refl
prepend-cons_cell c (v ∷ row) = refl

read_cells-nonempty : (s : Text) → prepend [] (read_cells s) ≡ read_cells s
unfolding read_cells
read_cells-nonempty [] = refl
read_cells-nonempty (c ∷ []) = ground arith
read_cells-nonempty (c ∷ d ∷ cs) =
    if_cases (λ (row : List Text). prepend [] row ≡ row) (c == 92)
      (cons_cell (unescaped d) (read_cells cs))
      (if c == b',' then [] ∷ read_cells (d ∷ cs) else cons_cell c (read_cells (d ∷ cs)))
      (λ _. prepend-cons_cell (unescaped d) (read_cells cs))
      (λ _.
        if_cases (λ (row : List Text). prepend [] row ≡ row) (c == b',') ([] ∷ read_cells (d ∷ cs))
          (cons_cell c (read_cells (d ∷ cs))) (λ _. refl)
          (λ _. prepend-cons_cell c (read_cells (d ∷ cs))))

read_cells-plain :
    (c : ℕ) (s : Text)
    → (c == b',') ≡ false
    → (c == 92) ≡ false
    → read_cells (c ∷ s) ≡ cons_cell c (read_cells s)
unfolding read_cells
read_cells-plain c [] h k = rw h refl
read_cells-plain c (d ∷ s) h k = rw (h, k) refl

read_cells-comma : (s : Text) → read_cells (b',' ∷ s) ≡ [] ∷ read_cells s
unfolding read_cells
read_cells-comma [] = refl
read_cells-comma (d ∷ s) = refl

read_cells-escape_char :
    (c : ℕ) (s : Text) → read_cells (escape_char c ++ s) ≡ cons_cell c (read_cells s)
unfolding escape_char read_cells
read_cells-escape_char c s = elim (Bool-cases (c == b',')) [
  | inl comma ↦
      let e : c ≡ b',' = ground (arith, comma) in
      rw comma (ap (λ d. cons_cell d (read_cells s)) (sym e))
  | inr plain ↦ elim (Bool-cases (c == 10)) [
    | inl feed ↦
        let e : c ≡ 10 = ground (arith, feed) in
        rw (plain, feed) (ap (λ d. cons_cell d (read_cells s)) (sym e))
    | inr inside ↦ elim (Bool-cases (c == 92)) [
      | inl slash ↦
          let e : c ≡ 92 = ground (arith, slash) in
          rw (plain, inside, slash) (ap (λ d. cons_cell d (read_cells s)) (sym e))
      | inr other ↦ rw (plain, inside, other) (read_cells-plain c s plain other)
    ]
  ]
]

read_cells-escape_chars : (v s : Text) → read_cells (escape_chars v ++ s) ≡ prepend v (read_cells s)
unfolding escape_chars
read_cells-escape_chars [] s = sym (read_cells-nonempty s)
read_cells-escape_chars (c ∷ v) s =
    ap read_cells (append_assoc (escape_char c) (escape_chars v) s)
    ∙ read_cells-escape_char c (escape_chars v ++ s)
    ∙ ap (cons_cell c) (read_cells-escape_chars v s)
    ∙ cons_cell-prepend c v (read_cells s)

escape_chars-plain :
    (v : Text)
    → any (λ c. c == b',') v || any (λ c. c == 10) v || any (λ c. c == 92) v ≡ false
    → escape_chars v ≡ v
unfolding escape_chars escape_char
escape_chars-plain [] h = refl
escape_chars-plain (c ∷ v) h =
    let comma : (c == b',') ≡ false = ground arith in
    let feed : (c == 10) ≡ false = ground arith in
    let slash : (c == 92) ≡ false = ground arith in
    let rest : any (λ d. d == b',') v || any (λ d. d == 10) v || any (λ d. d == 92) v ≡ false =
      ground arith in
    rw (comma, feed, slash) (ap (◌∷◌ c) (escape_chars-plain v rest))

escape_cell-escape_chars : (v : Text) → escape_cell v ≡ escape_chars v
unfolding escape_cell
escape_cell-escape_chars v =
    if_cases (λ (t : Text). t ≡ escape_chars v)
      (any (λ c. c == b',') v || any (λ c. c == 10) v || any (λ c. c == 92) v) (escape_chars v) v
      (λ _. refl) (λ h. sym (escape_chars-plain v h))

read_cells-cells : (v : Text) (row : List Text) → read_cells (cells (v ∷ row)) ≡ v ∷ row
unfolding cells read_cells
read_cells-cells v [] =
    ap read_cells (escape_cell-escape_chars v ∙ sym (append-nil (escape_chars v)))
    ∙ read_cells-escape_chars v []
    ∙ ap (λ t. t ∷ []) (append-nil v)
read_cells-cells v (w ∷ row) =
    ap (λ t. read_cells (t ++ b',' ∷ cells (w ∷ row))) (escape_cell-escape_chars v)
    ∙ read_cells-escape_chars v (b',' ∷ cells (w ∷ row))
    ∙ ap (prepend v) (read_cells-comma (cells (w ∷ row)) ∙ ap (◌∷◌ []) (read_cells-cells w row))
    ∙ ap (λ t. t ∷ w ∷ row) (append-nil v)

-- No line feed.
unfoldable pub IsOneLine : Text → Type 0
IsOneLine s = any (λ c. c == 10) s ≡ false

append-IsOneLine : (s t : Text) → IsOneLine s → IsOneLine t → IsOneLine (s ++ t)
unfolding IsOneLine
append-IsOneLine [] t h k = k
append-IsOneLine (c ∷ s) t h k =
    let feed : (c == 10) ≡ false = ground arith in
    let rest : any (λ d. d == 10) s ≡ false = ground arith in
    ground (arith, feed, append-IsOneLine s t rest k)

escape_char-IsOneLine : (c : ℕ) → IsOneLine (escape_char c)
unfolding IsOneLine escape_char
escape_char-IsOneLine c = ground arith

escape_chars-IsOneLine : (v : Text) → IsOneLine (escape_chars v)
unfolding escape_chars
escape_chars-IsOneLine [] = (unfold IsOneLine in refl)
escape_chars-IsOneLine (c ∷ v) =
    append-IsOneLine (escape_char c) (escape_chars v) (escape_char-IsOneLine c)
      (escape_chars-IsOneLine v)

cells-IsOneLine : (row : List Text) → IsOneLine (cells row)
unfolding cells
cells-IsOneLine [] = (unfold IsOneLine in refl)
cells-IsOneLine (v ∷ []) =
    subst IsOneLine (sym (escape_cell-escape_chars v)) (escape_chars-IsOneLine v)
cells-IsOneLine (v ∷ w ∷ row) =
    append-IsOneLine (escape_cell v) (b',' ∷ cells (w ∷ row))
      (subst IsOneLine (sym (escape_cell-escape_chars v)) (escape_chars-IsOneLine v))
      (append-IsOneLine (b',' ∷ []) (cells (w ∷ row)) (unfold IsOneLine in refl)
        (cells-IsOneLine (w ∷ row)))

-- A row of at least one cell, whatever the cells hold, is printed without a line feed, and a reader
-- that splits it at the commas outside escapes and undoes the escapes gets its cells back.
pub read_cells-row :
    (v : Text) (row : List Text)
    → (read_cells (cells (v ∷ row)) ≡ v ∷ row) × IsOneLine (cells (v ∷ row))
read_cells-row v row = (read_cells-cells v row, cells-IsOneLine (v ∷ row))
