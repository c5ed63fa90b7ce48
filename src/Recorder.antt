-- ===== src/Recorder.antt =====
-- crates/jkr-session-recorder/src/lib.rs: the plugin that records the commands of a session. The
-- time, the environment's session id and a fresh one are arguments; a step that panics has no result.
pub mod Scrub
pub mod Found
pub mod Searched
pub mod Shapes
pub mod Shown
pub mod Reasons
pub mod Secrets
pub mod Preview
pub mod Storage
use tkr.Prelude.{
  ℕ, ◌+◌, ◌-◌, ◌/◌, ◌%◌, min, Bool, true, false, Option, none, some, List, [], ◌∷◌, ◌++◌, Text,
  codes, byte_len, slice_to, is_char_boundary, ltb, leb, if◌then◌else◌, u32, u64,
}
use tkr.Filter.Plugin.{is_empty}
use tkr.Recorder.Scrub.{is_deny_listed, scrub_line}

pub record CommandCtx : Type 0 where
  pub command : Text
  pub args : Text
  pub line_index : ℕ

pub record InFlight : Type 0 where
  -- in milliseconds
  pub started_at : ℕ
  pub command : Text
  pub args : Text
  pub chars_in : ℕ
  pub filter_savings_chars : ℕ
  pub output_preview : Text
  pub suppress_preview : Bool

-- An event of crates/jkr-session-recorder/src/storage.rs; the input is a JSON string.
pub record Event : Type 0 where
  pub ts : Text
  pub session_id : Text
  pub seq : ℕ
  pub tool : Text
  pub input : Text
  pub output_preview : Text
  pub output_full_ref : Option Text
  pub tokens_in : ℕ
  pub tokens_out : ℕ
  pub filter_savings_tokens : ℕ
  pub cache_hit : Option Bool
  pub duration_ms : ℕ
  pub exit_code : Option ℕ

-- The plugin; the host is either there or not.
pub record SessionRecorder : Type 0 where
  pub has_host : Bool
  pub session_id : Option Text
  pub in_flight : Option InFlight
  pub next_seq : ℕ

-- `SessionRecorderPluginV2::new`
abbrev pub new_recorder : SessionRecorder
new_recorder = record { has_host = false; session_id = none; in_flight = none; next_seq = 0 }

abbrev pub on_load : SessionRecorder → SessionRecorder
on_load r = record r { has_host = true }

unfoldable pub on_command_begin : ℕ → CommandCtx → SessionRecorder → SessionRecorder
unfolding is_deny_listed
on_command_begin now_ms ctx r = record r {
  in_flight = some (record {
    started_at = now_ms;
    command = ctx.command;
    args = ctx.args;
    chars_in = 0;
    filter_savings_chars = 0;
    output_preview = [];
    suppress_preview = is_deny_listed ctx.command;
  });
}

-- The slice panics inside a character.
unfoldable pub push_preview : Text → Text → Option Text
unfolding byte_len slice_to is_char_boundary
push_preview scrubbed preview =
    let remaining = 2048 - byte_len preview in
    let taken = min (byte_len scrubbed) remaining in
    let cut : Text = if ltb taken (byte_len scrubbed) then 10 ∷ [] else [] in
    if ltb (byte_len preview) 2048
    then (if is_char_boundary scrubbed taken
        then some (preview ++ slice_to taken scrubbed ++ cut)
        else none)
    else some preview

abbrev pub with_preview : InFlight → Option Text → Option InFlight
with_preview f none = none
with_preview f (some preview) = some (record f { output_preview = preview })

unfoldable pub observe_line : Text → InFlight → Option InFlight
unfolding push_preview scrub_line
observe_line line f =
    let counted : InFlight = record f { chars_in = u64 (f.chars_in + byte_len line) } in
    if f.suppress_preview
    then some counted
    else with_preview counted (push_preview (scrub_line line) f.output_preview)

abbrev pub observed : SessionRecorder → Option InFlight → Option SessionRecorder
observed r none = none
observed r (some f) = some (record r { in_flight = some f })

abbrev pub on_line_of : Text → SessionRecorder → Option InFlight → Option SessionRecorder
on_line_of line r none = some r
on_line_of line r (some f) = observed r (observe_line line f)

unfoldable pub on_line : Text → SessionRecorder → Option SessionRecorder
unfolding observe_line
on_line line r = on_line_of line r r.in_flight

abbrev pub first_of : Option Text → Text → Text
first_of (some id) _ = id
first_of none other = other

-- `resolve_session`, from the environment's id and a fresh one; the writing of the session's
-- metadata may fail and is left out.
unfoldable pub resolve_session : Option Text → Text → SessionRecorder → Text × SessionRecorder
resolve_session env fresh r =
    let id = first_of r.session_id (first_of env fresh) in (id, record r { session_id = some id })

-- `saturating_add`
abbrev pub next_number : ℕ → ℕ
next_number n = if leb 18446744073709551615 n then 18446744073709551615 else n + 1

unfoldable pub event_of : Text → Text → ℕ → ℕ → InFlight → Event
unfolding is_empty
event_of ts session_id seq now_ms f = record {
  ts = ts;
  session_id = session_id;
  seq = seq;
  tool = codes "Bash";
  input = if is_empty f.args then f.command else f.command ++ b' ' ∷ f.args;
  output_preview =
      if f.suppress_preview
      then codes "<preview suppressed: command in deny-list>"
      else f.output_preview;
  output_full_ref = none;
  tokens_in = 0;
  tokens_out = u32 (f.chars_in / 4);
  filter_savings_tokens = u32 (f.filter_savings_chars / 4);
  cache_hit = none;
  duration_ms = u32 (now_ms - f.started_at);
  exit_code = none;
}

abbrev pub end_flight :
    Text
    → ℕ
    → Option Text
    → Text
    → Option InFlight
    → SessionRecorder
    → Option Event × SessionRecorder
end_flight ts now_ms env fresh none r = (none, r)
end_flight ts now_ms env fresh (some f) r =
    let (id, r') = resolve_session env fresh (record r { in_flight = none }) in
    (some (event_of ts id r'.next_seq now_ms f), record r' { next_seq = next_number r'.next_seq })

-- The event that is appended to the session's file, if there is one.
unfoldable pub on_command_end :
    Text → ℕ → Option Text → Text → SessionRecorder → Option Event × SessionRecorder
unfolding event_of resolve_session
on_command_end ts now_ms env fresh r =
    let ended = end_flight ts now_ms env fresh r.in_flight r in
    if r.has_host then ended else (none, r)
