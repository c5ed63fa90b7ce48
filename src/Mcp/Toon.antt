-- ===== src/Mcp/Toon.antt =====
-- crates/jkr-mcp/src/toon.rs: tables with the names of the columns in a header.
pub mod Rows
use tkr.Prelude.{
  ℕ, Bool, true, false, ◌||◌, List, [], ◌∷◌, ◌++◌, Text, codes, any, length, decimal, ◌==◌,
  if◌then◌else◌,
}

-- The `match` of `escape_cell`: 10 is the line feed and 92 the backslash.
unfoldable pub escape_char : ℕ → Text
escape_char c =
    if c == b','
    then 92 ∷ b',' ∷ []
    else if c == 10
    then 92 ∷ b'n' ∷ []
    else if c == 92
    then 92 ∷ 92 ∷ []
    else c ∷ []

unfoldable pub escape_chars : Text → Text
unfolding escape_char
escape_chars [] = []
escape_chars (c ∷ cs) = escape_char c ++ escape_chars cs

unfoldable pub escape_cell : Text → Text
unfolding escape_chars
escape_cell s =
    if any (λ c. c == b',') s || any (λ c. c == 10) s || any (λ c. c == 92) s
    then escape_chars s
    else s

-- The texts with commas between them.
unfoldable pub with_commas : List Text → Text
with_commas [] = []
with_commas (s ∷ []) = s
with_commas (s ∷ t ∷ texts) = s ++ b',' ∷ with_commas (t ∷ texts)

unfoldable pub cells : List Text → Text
unfolding escape_cell
cells [] = []
cells (v ∷ []) = escape_cell v
cells (v ∷ w ∷ row) = escape_cell v ++ b',' ∷ cells (w ∷ row)

unfoldable pub row_lines : List (List Text) → Text
unfolding cells
row_lines [] = []
row_lines (row ∷ rows) = codes "  " ++ cells row ++ 10 ∷ row_lines rows

unfoldable pub table : Text → List Text → List (List Text) → Text
unfolding decimal with_commas row_lines
table label cols rows =
    label
    ++ 10 ∷ codes "rows["
    ++ decimal (length rows)
    ++ codes "]{"
    ++ with_commas cols
    ++ codes "}:"
    ++ 10 ∷ row_lines rows
