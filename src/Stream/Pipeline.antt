-- ===== src/Stream/Pipeline.antt =====
-- `run_pipeline_direct` of crates/jkr/src/stream.rs: the pipeline of the proxy, which prints what it
-- emits. `JKR_MAX_TOKENS`, `JKR_COMPACT_JSON` and the home directory are arguments, the lines come
-- as a list (`none` is a read error), and `serde_json` is a parameter. The signature buffer
-- (`record_emit`), the output prefix and the child's exit code are left out.
pub mod Accounting
pub mod Budget
use tkr.Prelude.{
  ℕ, zero, suc, ◌+◌, ◌-◌, ◌/◌, Bool, true, false, not, ◌&&◌, ◌||◌, Option, none, some, List, [],
  ◌∷◌, ◌++◌, Text, codes, byte_len, is_blank, decimal, leb, ltb, ◌==◌, if◌then◌else◌, u32, u64,
}
use tkr.Filter.Regex.{RegexApi}
use tkr.Filter.Compiled.{FilterResult}
use tkr.Filter.Apply.Words.{CaseApi}
use tkr.Filter.Compile.{join}
use tkr.Filter.Plugin.{FilterPlugin, filter, is_empty}
use tkr.Stream.Normalize.{normalize_line}
use tkr.Stream.Tee.{append_raw_line}

-- The variables of the loop.
pub record Pipe : Type 0 where
  pub emitted : List Text
  pub chars_in : ℕ
  pub chars_suppressed : ℕ
  pub blank_run : ℕ
  pub emitted_chars : ℕ
  pub budget_exceeded : Bool
  pub elided_lines : ℕ

abbrev pub empty_pipe : Pipe
empty_pipe = record {
  emitted = [];
  chars_in = 0;
  chars_suppressed = 0;
  blank_run = 0;
  emitted_chars = 0;
  budget_exceeded = false;
  elided_lines = 0;
}

unfoldable pub chars_to_tokens : ℕ → ℕ
chars_to_tokens chars = chars / 4

-- `chars_suppressed += n`
abbrev pub suppressed_by : ℕ → Pipe → Pipe
suppressed_by n p = record p { chars_suppressed = u64 (p.chars_suppressed + n) }

-- The bytes of the line, and those that normalizing took away.
unfoldable pub read_line : Text → Text → Pipe → Pipe
read_line raw line p =
    let p' = record p { chars_in = u64 (p.chars_in + byte_len raw) } in
    if ltb (byte_len line) (byte_len raw)
    then suppressed_by (byte_len raw - byte_len line) p'
    else p'

-- The new run of blank lines.
unfoldable pub next_blank_run : Text → ℕ → ℕ
unfolding is_blank
next_blank_run line blank_run = if is_blank line then u32 (blank_run + 1) else 0

-- `none` is a line that the filter suppressed.
unfoldable pub outcome : FilterResult → Text → Option Text
outcome FilterResult.suppress line = none
outcome (FilterResult.suppress_with_note _) line = none
outcome FilterResult.pass line = some line
outcome (FilterResult.replace s) line = some s
outcome (FilterResult.annotate s) line = some (line ++ b' ' ∷ s)

unfoldable pub push_line : Text → Pipe → Pipe
push_line current p = record p { emitted = p.emitted ++ current ∷ [] }

unfoldable pub elide : Text → Pipe → Pipe
elide line p = record (suppressed_by (byte_len line) p) { elided_lines = u64 (p.elided_lines + 1) }

-- The token budget.
unfoldable pub within_budget : Option ℕ → Text → Text → Pipe → Pipe
unfolding push_line elide chars_to_tokens
within_budget none line current p = push_line current p
within_budget (some max) line current p =
    let chars = u64 (p.emitted_chars + byte_len current) in
    if p.budget_exceeded
    then elide line p
    else if ltb max (chars_to_tokens chars)
    then elide line (record p { budget_exceeded = true })
    else push_line current (record p { emitted_chars = chars })

-- What follows the filter.
unfoldable pub after_filter : Option ℕ → Text → Option Text → Pipe → Pipe
unfolding within_budget
after_filter max_tokens line none p = suppressed_by (byte_len line) p
after_filter max_tokens line (some current) p = within_budget max_tokens line current (
    if ltb (byte_len current) (byte_len line)
    then suppressed_by (byte_len line - byte_len current) p
    else p)

-- The message behind the lines when the budget was passed.
unfoldable pub budget_message : Option ℕ → Pipe → Text
unfolding decimal
budget_message max_tokens p =
    codes "(... "
    ++ decimal p.elided_lines
    ++ codes " more lines elided "
    ++ 0x2014 ∷ codes " JKR_MAX_TOKENS="
    ++ decimal (elim max_tokens [ none ↦ 0 | some max ↦ max ])
    ++ codes " reached)"

unfoldable pub finish_budget : Option ℕ → Pipe → Pipe
unfolding push_line budget_message
finish_budget max_tokens p =
    if p.budget_exceeded then push_line (budget_message max_tokens p) p else p

-- `emitted.join("\n")`, compacted if it is JSON; only the count of bytes comes back.
unfoldable pub compact_body : (Text → Option Text) → Bool → Pipe → Pipe
unfolding join is_empty
compact_body compact_json buffered p =
    let body = join (codes "\n") p.emitted in
    let final_body : Text = elim (compact_json body) [ none ↦ body | some compacted ↦ compacted ] in
    if buffered && not (is_empty p.emitted) && ltb (byte_len final_body) (byte_len body)
    then suppressed_by (byte_len body - byte_len final_body) p
    else p

module _ (case : CaseApi) (api : RegexApi) where
  open api use {Re, ReSet}

  -- The loop's variables, the filter's state, and the transcript if it is captured.
  pub record Direct : Type 0 where
    pub pipe : Pipe
    pub plugin : FilterPlugin Re ReSet
    pub transcript : Option Text

  module _ (home : Option Text) (max_tokens : Option ℕ) (transcript_cap : ℕ)
      (command args : Text) where
    abbrev captured : Text → Option Text → Option Text
    captured raw none = none
    captured raw (some buf) = some (append_raw_line buf raw transcript_cap)

    -- A second blank line in a row goes no further; any other goes to the filter.
    unfoldable pub direct_line : Text → Direct → Direct
    unfolding read_line next_blank_run filter outcome after_filter append_raw_line normalize_line
    direct_line raw d =
        let line = normalize_line home raw in
        let blank_run = next_blank_run line d.pipe.blank_run in
        let p = record (read_line raw line d.pipe) { blank_run = blank_run } in
        let (result, plugin') = filter case api d.plugin line command args in
        let transcript' = captured raw d.transcript in
        if ltb 1 blank_run
        then (record {
          pipe = suppressed_by (byte_len line) p;
          plugin = d.plugin;
          transcript = transcript';
        })
        else (record {
          pipe = after_filter max_tokens line (outcome result line) p;
          plugin = plugin';
          transcript = transcript';
        })

    unfoldable pub direct_lines : List (Option Text) → Direct → Direct
    unfolding direct_line
    direct_lines [] d = d
    direct_lines (none ∷ lines) d = direct_lines lines d
    direct_lines (some raw ∷ lines) d = direct_lines lines (direct_line raw d)

    unfoldable pub run_pipeline_direct :
        (Text → Option Text) → Bool → List (Option Text) → Direct → Direct
    unfolding direct_lines finish_budget compact_body
    run_pipeline_direct compact_json buffered lines d =
        let d' = direct_lines lines d in
        record d' { pipe = compact_body compact_json buffered (finish_budget max_tokens d'.pipe) }
