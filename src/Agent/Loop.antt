-- ===== src/Agent/Loop.antt =====
-- crates/jkr-agent/src/loop_.rs: `run`. The rounds that remain are `max_steps - steps`.
use tkr.Prelude.{
  ℕ, zero, suc, ◌+◌, Option, none, some, List, [], ◌∷◌, ◌++◌, Text, codes, if◌then◌else◌, byte_len,
  u32, u64, StdResult, ok, err,
}
use tkr.Sandbox.Tracee.{ℤ}
use tkr.Filter.Regex.{RegexApi}
use tkr.Filter.Apply.Words.{CaseApi}
use tkr.Filter.Plugin.{FilterPlugin, is_empty}
use tkr.Agent.Message.{
  ContentBlock, Message, StopReason, ProviderResponse, AgentEventKind, SeqEmitter,
}
use tkr.Agent.Tools.{
  ToolResult, AgentApi, is_error, collect_text, ToolRegistry, schemas, Workshop, announce, Call,
  run_tool_calls_with_events, apply_filter,
}

-- What the loop reads of crates/jkr-agent/src/manifest.rs.
pub record Manifest : Type 0 where
  pub system : Option Text
  pub task : Text
  pub max_steps : ℕ

module _ (api : AgentApi) (case : CaseApi) (regex : RegexApi) where
  open regex use {Re, ReSet}

  pub record RunOutcome : Type 0 where
    pub final_text : Text
    pub steps : ℕ
    pub input_tokens_total : ℕ
    pub output_tokens_total : ℕ
    pub raw_bytes_total : ℕ
    pub filtered_bytes_total : ℕ
    pub messages : List (Message api.Value)

  -- The variables of the loop and what it borrows.
  pub record Running : Type 0 where
    pub outcome : RunOutcome
    pub workshop : Workshop api
    pub plugin : Option (FilterPlugin Re ReSet)
    pub provider : api.Provider

  abbrev pub first_outcome : Text → RunOutcome
  first_outcome task = record {
    final_text = [];
    steps = 0;
    input_tokens_total = 0;
    output_tokens_total = 0;
    raw_bytes_total = 0;
    filtered_bytes_total = 0;
    messages = Message.user (ContentBlock.text task ∷ []) ∷ [];
  }

  abbrev pub say : AgentEventKind api.Value → Running → Running
  say kind r = record r { workshop = announce api kind r.workshop }

  abbrev pub push : Message api.Value → Running → Running
  push message r = record r {
    outcome = record r.outcome { messages = r.outcome.messages ++ message ∷ [] };
  }

  abbrev pub filtered_as :
      Text × FilterPlugin Re ReSet → ToolResult → ToolResult × Option (FilterPlugin Re ReSet)
  filtered_as (content, plugin) tr =
      (record tr { content = content; filtered_bytes = byte_len content }, some plugin)

  -- The result of a tool behind the filter, if there is one.
  unfoldable pub filter_result :
      Option (FilterPlugin Re ReSet)
      → Text
      → ToolResult
      → ToolResult × Option (FilterPlugin Re ReSet)
  unfolding apply_filter
  filter_result none tool_name tr = (tr, none)
  filter_result (some plugin) tool_name tr =
      filtered_as (apply_filter case regex plugin tool_name tr.content) tr

  abbrev pub count_bytes : ℕ → ℕ → RunOutcome → RunOutcome
  count_bytes raw filtered o = record o {
    raw_bytes_total = u64 (o.raw_bytes_total + raw);
    filtered_bytes_total = u64 (o.filtered_bytes_total + filtered);
  }

  abbrev pub block_of : Text → ToolResult → ContentBlock api.Value
  block_of id tr = ContentBlock.tool_result id tr.content (is_error tr)

  unfoldable pub result_blocks : List (Call api) → Running → List (ContentBlock api.Value) × Running
  unfolding filter_result
  result_blocks [] r = ([], r)
  result_blocks ((id, (tr, tool_name)) ∷ calls) r =
      let (tr', plugin') = filter_result r.plugin tool_name tr in
      let counted : Running = record r {
        outcome = count_bytes tr.raw_bytes tr'.filtered_bytes r.outcome;
        plugin = plugin';
      } in
      let (blocks, r') = result_blocks calls counted in (block_of id tr' ∷ blocks, r')

  abbrev pub answer : List (ContentBlock api.Value) × Running → Running
  answer (blocks, r) = push (Message.user blocks) r

  -- How a round ends.
  pub data Round : Type 0 where
    finished : Running → Round
    failed : Text → Running → Round
    again : Running → Round

  abbrev pub after_calls : StdResult (List (Call api)) Text × Workshop api → Running → Round
  after_calls (err problem, w) r = Round.failed problem (record r { workshop = w })
  after_calls (ok calls, w) r =
      Round.again (answer (result_blocks calls (record r { workshop = w })))

  unfoldable pub stop : Text → Running → Running
  stop text r =
      say (AgentEventKind.done (ℤ.pos 0) r.outcome.steps)
        (record r { outcome = record r.outcome { final_text = text } })

  unfoldable pub after_stop : StopReason → Text → List (ContentBlock api.Value) → Running → Round
  unfolding stop run_tool_calls_with_events result_blocks
  after_stop StopReason.end_turn text content r = Round.finished (stop text r)
  after_stop StopReason.max_tokens text content r = Round.finished (stop text r)
  after_stop StopReason.tool_use text content r =
      after_calls (run_tool_calls_with_events api content r.workshop) r
  after_stop (StopReason.other s) text content r =
      Round.failed (codes "unexpected stop reason: " ++ s)
        (say (AgentEventKind.error (codes "stop_reason") s) r)

  abbrev pub count_tokens : ProviderResponse api.Value → RunOutcome → RunOutcome
  count_tokens resp o = record o {
    input_tokens_total = u32 (o.input_tokens_total + resp.input_tokens);
    output_tokens_total = u32 (o.output_tokens_total + resp.output_tokens);
  }

  unfoldable pub after_send :
      StdResult (ProviderResponse api.Value) Text × api.Provider → Running → Round
  unfolding collect_text after_stop is_empty
  after_send (err problem, provider) r = Round.failed problem (record r { provider = provider })
  after_send (ok resp, provider) r =
      let text = collect_text resp.content in
      let counted : Running = record r {
        outcome = count_tokens resp r.outcome;
        provider = provider;
      } in
      let told : Running =
        if is_empty text then counted else say (AgentEventKind.token text) counted in
      after_stop resp.stop_reason text resp.content (push (Message.assistant resp.content) told)

  unfoldable pub run_step : Manifest → List api.Value → Running → Round
  unfolding after_send
  run_step manifest schemas r =
      let steps = r.outcome.steps + 1 in
      let started =
        say (AgentEventKind.step steps manifest.max_steps)
          (record r { outcome = record r.outcome { steps = steps } }) in
      after_send (api.send started.provider manifest.system started.outcome.messages schemas 1024)
        started

  abbrev pub result_of :
      Round → (Running → StdResult RunOutcome Text × Running) → StdResult RunOutcome Text × Running
  result_of (Round.finished r) more = (ok r.outcome, r)
  result_of (Round.failed problem r) more = (err problem, r)
  result_of (Round.again r) more = more r

  unfoldable pub run_loop :
      ℕ → Manifest → List api.Value → Running → StdResult RunOutcome Text × Running
  unfolding run_step
  run_loop zero manifest schemas r = (ok r.outcome, r)
  run_loop (suc remaining) manifest schemas r =
      result_of (run_step manifest schemas r) (λ next. run_loop remaining manifest schemas next)

  unfoldable pub run :
      Manifest
      → api.Provider
      → ToolRegistry api
      → Option (FilterPlugin Re ReSet)
      → Option (SeqEmitter api.Value)
      → StdResult RunOutcome Text × Running
  unfolding run_loop schemas
  run manifest provider tools plugin emitter =
      run_loop manifest.max_steps manifest (schemas api tools) (record {
        outcome = first_outcome manifest.task;
        workshop = record { tools = tools; emitter = emitter };
        plugin = plugin;
        provider = provider;
      })
