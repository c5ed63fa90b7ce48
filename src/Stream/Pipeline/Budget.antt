-- ===== src/Stream/Pipeline/Budget.antt =====
-- The token budget of `run_pipeline_direct` of crates/jkr/src/stream.rs.
use tkr.Prelude.{
  ℕ, ◌-◌, byte_len, ◌≤◌, ◌≡◌, ◌/◌, sym, subst, refl, Option, none, some, List, [], ◌∷◌, Text, ltb,
  u64, arith, if_cases,
}
use tkr.Filter.Regex.{RegexApi}
use tkr.Filter.Apply.Words.{CaseApi}
use tkr.Filter.Plugin.{filter}
use tkr.Stream.Normalize.{normalize_line}
use tkr.Stream.Pipeline.{
  Pipe, empty_pipe, Direct, suppressed_by, read_line, within_budget, after_filter, push_line, elide,
  outcome, chars_to_tokens, direct_line, direct_lines, next_blank_run,
}
use tkr.Stream.Pipeline.Accounting.{bytes_of, bytes_of-append}

-- What was printed is counted, up to the wrap-around of the counter, and is within the budget.
IsWithin : ℕ → Pipe → Type 0
IsWithin most p =
    (p.emitted_chars ≡ u64 (bytes_of p.emitted)) × (chars_to_tokens p.emitted_chars ≤ most)

within_budget-IsWithin :
    (most : ℕ) (line current : Text) (p : Pipe)
    → IsWithin most p
    → IsWithin most (within_budget (some most) line current p)
unfolding IsWithin within_budget push_line elide
within_budget-IsWithin most line current p h = ground (arith, bytes_of-append p.emitted current)

after_filter-IsWithin :
    (most : ℕ) (line : Text) (result : Option Text) (p : Pipe)
    → IsWithin most p
    → IsWithin most (after_filter (some most) line result p)
unfolding after_filter IsWithin
after_filter-IsWithin most line none p h = h
after_filter-IsWithin most line (some current) p h = within_budget-IsWithin most line current _ (
    if_cases (IsWithin most) (ltb (byte_len current) (byte_len line))
      (suppressed_by (byte_len line - byte_len current) p) p (λ _. h) (λ _. h))

read_line-IsWithin :
    (most : ℕ) (raw line : Text) (p : Pipe) → IsWithin most p → IsWithin most (read_line raw line p)
unfolding IsWithin read_line
read_line-IsWithin most raw line p h = ground arith

module _ (case : CaseApi) (api : RegexApi) where
  open api use {Re, ReSet}

  module _ (home : Option Text) (most transcript_cap : ℕ) (command args : Text) where
    direct_line-IsWithin :
        (raw : Text) (d : Direct case api)
        → IsWithin most d.pipe
        → IsWithin most
            (direct_line case api home (some most) transcript_cap command args raw d).pipe
    unfolding IsWithin direct_line
    direct_line-IsWithin raw d h =
        let line = normalize_line home raw in
        let blank_run = next_blank_run line d.pipe.blank_run in
        let p = record (read_line raw line d.pipe) { blank_run = blank_run } in
        let result = outcome (filter case api d.plugin line command args).0 line in
        let read = read_line-IsWithin most raw line d.pipe h in
        if_cases (λ (d' : Direct case api). IsWithin most d'.pipe) (ltb 1 blank_run) _ _ (λ _. read)
          (λ _. after_filter-IsWithin most line result p read)

    direct_lines-IsWithin :
        (lines : List (Option Text)) (d : Direct case api)
        → IsWithin most d.pipe
        → IsWithin most
            (direct_lines case api home (some most) transcript_cap command args lines d).pipe
    unfolding direct_lines
    direct_lines-IsWithin [] d h = h
    direct_lines-IsWithin (none ∷ lines) d h = direct_lines-IsWithin lines d h
    direct_lines-IsWithin (some raw ∷ lines) d h =
        direct_lines-IsWithin lines _ (direct_line-IsWithin raw d h)

    -- From fresh counters and with a budget of `most` tokens, the bytes of the lines that the loop prints are at most `most`
    -- tokens, counted in 64 bits; the message of the budget comes after the loop.
    pub direct_lines-within_budget :
        (lines : List (Option Text)) (d : Direct case api)
        → d.pipe ≡ empty_pipe
        → chars_to_tokens (
            u64 (
              bytes_of
                (direct_lines case api home
                  (some most)
                  transcript_cap
                  command
                  args
                  lines
                  d).pipe.emitted))
          ≤ most
    unfolding IsWithin bytes_of chars_to_tokens
    direct_lines-within_budget lines d fresh =
        let start : IsWithin most empty_pipe = (refl, omega arith) in
        let (counted, within) =
          direct_lines-IsWithin lines d (subst (IsWithin most) (sym fresh) start) in
        subst (λ n. n / 4 ≤ most) counted within
