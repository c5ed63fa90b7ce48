-- ===== src/Recorder/Preview.antt =====
-- crates/jkr-session-recorder/src/lib.rs: what a session's preview holds.
use tkr.Prelude.{
  ℕ, ◌+◌, ◌-◌, ◌≤◌, min, ◌≡◌, refl, ap, ◌∙◌, Bool, true, false, Option, none, some, List, [], ◌∷◌,
  ◌++◌, Text, All, all, byte_len, byte_len-append, byte_len-slice_to, len_utf8, slice_to,
  is_char_boundary, ltb, ltb→lt, if◌then◌else◌, if_cases, arith, u64,
}
use tkr.Recorder.Scrub.{redacted, scrub_line}
use tkr.Recorder.Reasons.{match_secret_pattern-reasons}
use tkr.Recorder.{InFlight, push_preview, observe_line, with_preview}

unfoldable pub IsAscii : Text → Type 0
IsAscii s = all (λ c. ltb c 128) s ≡ true

abbrev pub then_observe : Option InFlight → (InFlight → Option InFlight) → Option InFlight
then_observe none more = none
then_observe (some g) more = more g

-- The lines that a command prints, one after the other, from its start.
unfoldable pub observe_lines : List Text → InFlight → Option InFlight
unfolding observe_line
observe_lines [] f = some f
observe_lines (line ∷ lines) f = then_observe (observe_line line f) (λ g. observe_lines lines g)

is_char_boundary-ascii :
    (s : Text) (n : ℕ) → IsAscii s → n ≤ byte_len s → is_char_boundary s n ≡ true
unfolding IsAscii byte_len is_char_boundary len_utf8
is_char_boundary-ascii [] n h le = ground arith
is_char_boundary-ascii (c ∷ s) n h le =
    let parts : (ltb c 128 ≡ true) × (all (λ d. ltb d 128) s ≡ true) = ground arith in
    ground (arith, parts.0, is_char_boundary-ascii s (n - 1) parts.1)

redacted-IsAscii : (line : Text) → IsAscii line → IsAscii (scrub_line line)
unfolding scrub_line redacted IsAscii
redacted-IsAscii line h =
    match_secret_pattern-reasons (λ found. IsAscii (redacted line found)) line refl refl refl refl
      refl refl h

-- A preview at which a push arrives.
Fits : Option Text → Type 0
Fits pushed = (preview : Text) × ((pushed ≡ some preview) × (byte_len preview ≤ 2049))

byte_len-cut : (b : Bool) → byte_len (if◌then◌else◌ {A = Text} b (10 ∷ []) []) ≤ 1
unfolding byte_len len_utf8
byte_len-cut true = omega arith
byte_len-cut false = omega arith

push_preview-Fits :
    (scrubbed preview : Text)
    → IsAscii scrubbed
    → byte_len preview ≤ 2049
    → Fits (push_preview scrubbed preview)
unfolding push_preview Fits
push_preview-Fits scrubbed preview ascii h =
    let remaining = 2048 - byte_len preview in
    let taken = min (byte_len scrubbed) remaining in
    let cut : Text = if ltb taken (byte_len scrubbed) then 10 ∷ [] else [] in
    let whole : is_char_boundary scrubbed taken ≡ true =
      is_char_boundary-ascii scrubbed taken ascii (omega arith) in
    let pushed : Text = preview ++ slice_to taken scrubbed ++ cut in
    if_cases Fits (ltb (byte_len preview) 2048)
      (if is_char_boundary scrubbed taken then some pushed else none) (some preview)
      (λ room. rw whole (
        pushed,
        (
          refl,
          omega (
            arith,
            byte_len-append (preview ++ slice_to taken scrubbed) cut,
            byte_len-append preview (slice_to taken scrubbed),
            byte_len-slice_to scrubbed taken whole,
            byte_len-cut (ltb taken (byte_len scrubbed)),
            ltb→lt (byte_len preview) 2048 room,
          ),
        ),
      ))
      (λ _. (preview, (refl, h)))

observe_line-Fits :
    (line : Text) (f : InFlight)
    → IsAscii line
    → byte_len f.output_preview ≤ 2049
    → (g : InFlight) × ((observe_line line f ≡ some g) × (byte_len g.output_preview ≤ 2049))
unfolding observe_line Fits
observe_line-Fits line f ascii h =
    let counted : InFlight = record f { chars_in = u64 (f.chars_in + byte_len line) } in
    let pushed =
      push_preview-Fits (scrub_line line) f.output_preview (redacted-IsAscii line ascii) h in
    if_cases
      (λ (o : Option InFlight).
        (g : InFlight) × ((o ≡ some g) × (byte_len g.output_preview ≤ 2049)))
      f.suppress_preview (some counted)
      (with_preview counted (push_preview (scrub_line line) f.output_preview))
      (λ _. (counted, (refl, h)))
      (λ _. (
        (record counted { output_preview = pushed.0 }),
        (ap (with_preview counted) pushed.1.0, pushed.1.1),
      ))

-- If a command prints ASCII lines only, then however many and however long they are, recording
-- them does not panic, and a preview of at most 2,049 bytes, such as the empty one, still has at
-- most 2,049 bytes behind them.
pub observe_lines-fits :
    (lines : List Text) (f : InFlight)
    → All IsAscii lines
    → byte_len f.output_preview ≤ 2049
    → (g : InFlight) × ((observe_lines lines f ≡ some g) × (byte_len g.output_preview ≤ 2049))
unfolding observe_lines
observe_lines-fits [] f ascii h = (f, (refl, h))
observe_lines-fits (line ∷ lines) f ascii h =
    let first = observe_line-Fits line f ascii.0 h in
    let rest = observe_lines-fits lines first.0 ascii.1 first.1.1 in
    (rest.0, (ap (λ o. then_observe o (λ g. observe_lines lines g)) first.1.0 ∙ rest.1.0, rest.1.1))
