-- ===== src/Samples/StreamExamples.antt =====
-- The theorems on crates/jkr/src/stream.rs and tee.rs at small inputs.
use tkr.Prelude.{
  ℕ, zero, suc, ◌+◌, ◌-◌, ◌≡◌, refl, ◌≤◌, ◌<◌, Option, none, some, List, [], ◌∷◌, ◌++◌, Text, codes,
  All, byte_len, len_utf8, leb, if◌then◌else◌, u64, arith,
}
use tkr.Stream.Ansi.{esc, IsPlain, strip_ansi, strip_ansi-IsPlain, strip_ansi_idem}
use tkr.Stream.Normalize.{
  max_line_len, elision, truncate_long_line, truncate_long_line_lem, normalize_line,
}
use tkr.Stream.Tee.{
  truncate_utf8_prefix, append_raw_line, byte_len-append_raw_line, append_raw_line_unmarked,
}
use tkr.Stream.Pipeline.{empty_pipe, chars_to_tokens, Direct, direct_lines}
use tkr.Stream.Pipeline.Accounting.{bytes_of, load, IsAccounted, direct_lines-IsAccounted}
use tkr.Stream.Pipeline.Budget.{direct_lines-within_budget}
use tkr.Samples.{ascii_case}
use tkr.Samples.Regexes.{literals}

abbrev coloured : Text
coloured = codes "ok " ++ esc ∷ b'[' ∷ (codes "31" ++ b'm' ∷ codes "red")

strip_ansi-IsPlain_example : All IsPlain (strip_ansi coloured)
strip_ansi-IsPlain_example = strip_ansi-IsPlain coloured

strip_ansi_idem_example : strip_ansi (strip_ansi coloured) ≡ strip_ansi coloured
strip_ansi_idem_example = strip_ansi_idem coloured

abbrev letters : ℕ → Text
letters zero = []
letters (suc n) = b'x' ∷ letters n

letters-long : max_line_len < byte_len (letters 900)
unfolding byte_len len_utf8
letters-long = omega arith

truncate_long_line_example :
    (head rest : Text) × (head ++ rest ≡ letters 900)
    × (byte_len head ≤ max_line_len)
    × (max_line_len < byte_len head + 4)
    × (truncate_long_line (letters 900) ≡ head ++ elision (byte_len (letters 900) - max_line_len))
truncate_long_line_example = truncate_long_line_lem (letters 900) letters-long

abbrev transcript : Text
transcript = codes "first\n"

transcript-short : byte_len transcript ≤ 10
unfolding byte_len len_utf8
transcript-short = omega arith

byte_len-append_raw_line_example :
    byte_len (append_raw_line transcript (codes "second line") 10) ≤ 10
byte_len-append_raw_line_example =
    byte_len-append_raw_line transcript (codes "second line") 10 transcript-short

append_raw_line_unmarked_example : append_raw_line transcript (codes "second line") 10 ≡ (
    if leb (10 - byte_len transcript) 1
    then transcript
    else transcript
      ++ truncate_utf8_prefix (codes "second line") (10 - byte_len transcript - 1)
      ++ codes "\n")
unfolding byte_len len_utf8
append_raw_line_unmarked_example =
    append_raw_line_unmarked transcript (codes "second line") 10 (omega arith) (omega arith)

abbrev start : Direct ascii_case literals
start = record { pipe = empty_pipe; plugin = []; transcript = some [] }

abbrev lines : List (Option Text)
lines = some (codes "one") ∷ none ∷ some coloured ∷ some [] ∷ some [] ∷ []

start-IsAccounted : IsAccounted empty_pipe
unfolding IsAccounted
start-IsAccounted = omega arith

load-small : 0 + load none lines < 18446744073709551616
unfolding load normalize_line byte_len len_utf8
load-small = omega arith

direct_lines-IsAccounted_example :
    IsAccounted
      (direct_lines ascii_case literals none (some 1) 100 (codes "ls") [] lines start).pipe
direct_lines-IsAccounted_example =
    direct_lines-IsAccounted ascii_case literals none (some 1) 100 (codes "ls") [] lines start
      start-IsAccounted load-small load-small

direct_lines-within_budget_example :
    chars_to_tokens (
      u64 (
        bytes_of
          (direct_lines ascii_case literals none
            (some 1)
            100
            (codes "ls")
            []
            lines
            start).pipe.emitted))
    ≤ 1
direct_lines-within_budget_example =
    direct_lines-within_budget ascii_case literals none 1 100 (codes "ls") [] lines start refl
