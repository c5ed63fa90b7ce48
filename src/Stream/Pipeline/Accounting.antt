-- ===== src/Stream/Pipeline/Accounting.antt =====
-- What `run_pipeline_direct` of crates/jkr/src/stream.rs keeps count of.
use tkr.Prelude.{
  ℕ, ◌+◌, ◌-◌, ◌*◌, ◌≤◌, ◌<◌, ◌≡◌, Option, none, some, List, [], ◌∷◌, ◌++◌, Text, byte_len, ltb,
  arith, Bool-cases, if_cases, inl, inr,
}
use tkr.Filter.Regex.{RegexApi}
use tkr.Filter.Apply.Words.{CaseApi}
use tkr.Filter.Plugin.{filter}
use tkr.Stream.Normalize.{normalize_line}
use tkr.Stream.Pipeline.{
  Pipe, Direct, read_line, suppressed_by, within_budget, after_filter, push_line, elide, outcome,
  direct_line, direct_lines, next_blank_run,
}

unfoldable pub bytes_of : List Text → ℕ
bytes_of [] = 0
bytes_of (l ∷ ls) = byte_len l + bytes_of ls

pub bytes_of-append :
    (ls : List Text) (l : Text) → bytes_of (ls ++ l ∷ []) ≡ bytes_of ls + byte_len l
unfolding bytes_of
bytes_of-append [] l = omega arith
bytes_of-append (x ∷ ls) l = omega (arith, bytes_of-append ls l)

-- What the lines can add to the counter of the suppressed bytes.
unfoldable pub load : Option Text → List (Option Text) → ℕ
load home [] = 0
load home (none ∷ lines) = load home lines
load home (some raw ∷ lines) =
    byte_len raw + 2 * byte_len (normalize_line home raw) + load home lines

-- Every byte that came in was printed or counted as suppressed.
unfoldable pub IsAccounted : Pipe → Type 0
IsAccounted p = p.chars_in ≤ bytes_of p.emitted + p.chars_suppressed

-- What one stage does: `taken` bytes come in, and at least `used` of the line are dealt with.
IsStage : ℕ → ℕ → ℕ → Pipe → Pipe → Type 0
IsStage taken used most p q =
    (q.chars_in ≡ p.chars_in + taken)
    × (bytes_of p.emitted + p.chars_suppressed + used ≤ bytes_of q.emitted + q.chars_suppressed)
    × (q.chars_suppressed ≤ p.chars_suppressed + most)

abbrev pub limit : ℕ
limit = 18446744073709551616

read_line-IsStage :
    (raw line : Text) (p : Pipe)
    → p.chars_in + byte_len raw < limit
    → p.chars_suppressed + byte_len raw < limit
    → IsStage (byte_len raw) (byte_len raw - byte_len line) (byte_len raw) p (read_line raw line p)
unfolding read_line IsStage
read_line-IsStage raw line p small small' = ground arith

push_line-IsStage :
    (current : Text) (p : Pipe) → IsStage 0 (byte_len current) 0 p (push_line current p)
unfolding push_line IsStage
push_line-IsStage current p = ground (arith, bytes_of-append p.emitted current)

elide-IsStage :
    (line : Text) (p : Pipe)
    → p.chars_suppressed + byte_len line < limit
    → IsStage 0 (byte_len line) (byte_len line) p (elide line p)
unfolding elide IsStage
elide-IsStage line p small = ground arith

-- Printed or elided: the shorter of the two is dealt with.
within_budget-IsStage :
    (max_tokens : Option ℕ) (line current : Text) (used : ℕ) (p : Pipe)
    → p.chars_suppressed + byte_len line < limit
    → used ≤ byte_len line
    → used ≤ byte_len current
    → IsStage 0 used (byte_len line) p (within_budget max_tokens line current p)
unfolding within_budget push_line elide IsStage
within_budget-IsStage none line current used p small le le' =
    ground (arith, bytes_of-append p.emitted current)
within_budget-IsStage (some max) line current used p small le le' =
    ground (arith, bytes_of-append p.emitted current)

after_filter-IsStage :
    (max_tokens : Option ℕ) (line : Text) (result : Option Text) (p : Pipe)
    → p.chars_suppressed + 2 * byte_len line < limit
    → IsStage 0 (byte_len line) (2 * byte_len line) p (after_filter max_tokens line result p)
unfolding after_filter IsStage
after_filter-IsStage max_tokens line none p small = ground arith
after_filter-IsStage max_tokens line (some current) p small =
    elim (Bool-cases (ltb (byte_len current) (byte_len line))) [
      | inl shorter ↦
          let p' = suppressed_by (byte_len line - byte_len current) p in
          let small' : p'.chars_suppressed + byte_len line < limit = ground arith in
          let h =
            within_budget-IsStage max_tokens line current (byte_len current) p' small'
              (ground arith) (omega arith) in
          rw shorter (ground arith)
      | inr longer ↦
          let h =
            within_budget-IsStage max_tokens line current (byte_len line) p (omega arith)
              (omega arith) (ground arith) in
          rw longer (ground arith)
    ]

module _ (case : CaseApi) (api : RegexApi) where
  open api use {Re, ReSet}

  module _ (home : Option Text) (max_tokens : Option ℕ) (transcript_cap : ℕ)
      (command args : Text) where
    direct_line-IsStage :
        (raw : Text) (d : Direct case api)
        → let size = byte_len raw + 2 * byte_len (normalize_line home raw) in
          d.pipe.chars_in + size < limit
          → d.pipe.chars_suppressed + size < limit
          → IsStage
              (byte_len raw)
              (byte_len raw)
              size
              d.pipe
              (direct_line case api home max_tokens transcript_cap command args raw d).pipe
    unfolding direct_line IsStage
    direct_line-IsStage raw d small small' =
        let line = normalize_line home raw in
        let blank_run = next_blank_run line d.pipe.blank_run in
        let p = record (read_line raw line d.pipe) { blank_run = blank_run } in
        let result = outcome (filter case api d.plugin line command args).0 line in
        let read = read_line-IsStage raw line d.pipe (omega arith) (omega arith) in
        let filtered = after_filter-IsStage max_tokens line result p (omega arith) in
        if_cases
          (λ (d' : Direct case api).
            IsStage (byte_len raw) (byte_len raw) (byte_len raw + 2 * byte_len line) d.pipe d'.pipe)
          (ltb 1 blank_run) _ _ (λ _. ground arith) (λ _. ground arith)

    -- From counters that cover what was read, and as long as no counter can pass 64 bits, the loop
    -- ends with counters that cover it: the bytes read are at most those printed and those counted
    -- as suppressed.
    pub direct_lines-IsAccounted :
        (lines : List (Option Text)) (d : Direct case api)
        → IsAccounted d.pipe
        → d.pipe.chars_in + load home lines < limit
        → d.pipe.chars_suppressed + load home lines < limit
        → IsAccounted
            (direct_lines case api home max_tokens transcript_cap command args lines d).pipe
    unfolding direct_lines load IsStage IsAccounted
    direct_lines-IsAccounted [] d accounted small small' = accounted
    direct_lines-IsAccounted (none ∷ lines) d accounted small small' =
        direct_lines-IsAccounted lines d accounted small small'
    direct_lines-IsAccounted (some raw ∷ lines) d accounted small small' =
        let d' = direct_line case api home max_tokens transcript_cap command args raw d in
        let stage = direct_line-IsStage raw d (omega arith) (omega arith) in
        let accounted' : IsAccounted d'.pipe = omega arith in
        direct_lines-IsAccounted lines d' accounted' (omega arith) (omega arith)
