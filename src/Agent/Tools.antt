-- ===== src/Agent/Tools.antt =====
-- crates/jkr-agent/src/tool.rs, and the calls of tools and the filter of crates/jkr-agent/src/loop_.rs.
-- The tools and the provider behind their traits are parameters.
use tkr.Prelude.{
  ℕ, Bool, false, not, Option, none, some, List, [], ◌∷◌, ◌++◌, Text, codes, ◌==◌, StdResult, ok,
  err,
}
use tkr.Table.{Table, get, insert}
use tkr.Lines.{lines_of}
use tkr.Sandbox.Tracee.{ℤ}
use tkr.Filter.Regex.{RegexApi}
use tkr.Filter.Apply.Words.{CaseApi}
use tkr.Filter.Compiled.{FilterResult}
use tkr.Filter.Compile.{join}
use tkr.Filter.Plugin.{FilterPlugin, filter, flush}
use tkr.Agent.Message.{ContentBlock, Message, ProviderResponse, AgentEventKind, SeqEmitter, emit_to}

pub record ToolResult : Type 0 where
  pub content : Text
  pub raw_bytes : ℕ
  pub filtered_bytes : ℕ
  pub exit : ℤ

abbrev pub is_zero : ℤ → Bool
is_zero (ℤ.pos n) = n == 0
is_zero (ℤ.negsuc _) = false

-- `ToolResult::is_error`
abbrev pub is_error : ToolResult → Bool
is_error r = not (is_zero r.exit)

pub record AgentApi : Type 1 where
  pub Value : Type 0
  pub Tool : Type 0
  pub Provider : Type 0
  pub name : Tool → Text
  pub input_schema : Tool → Value
  pub run_tool : Tool → Value → StdResult ToolResult Text × Tool
  -- json!({ "name": .., "input_schema": .. })
  pub schema_json : Text → Value → Value
  pub send :
      Provider
      → Option Text
      → List (Message Value)
      → List Value
      → ℕ
      → StdResult (ProviderResponse Value) Text × Provider

-- What `collect_text` keeps.
unfoldable pub texts : {Value : Type 0} → List (ContentBlock Value) → List Text
texts [] = []
texts (ContentBlock.text t ∷ blocks) = t ∷ texts blocks
texts (_ ∷ blocks) = texts blocks

unfoldable pub collect_text : {Value : Type 0} → List (ContentBlock Value) → Text
unfolding texts join
collect_text blocks = join (codes "\n") (texts blocks)

module _ (api : AgentApi) where
  abbrev pub ToolRegistry : Type 0
  ToolRegistry = Table api.Tool

  unfoldable pub register : api.Tool → ToolRegistry → ToolRegistry
  unfolding insert
  register tool tools = insert (api.name tool) tool tools

  unfoldable pub schemas : ToolRegistry → List api.Value
  schemas [] = []
  schemas ((_, t) ∷ tools) = api.schema_json (api.name t) (api.input_schema t) ∷ schemas tools

  -- A finished call: its id, its result and the tool's name.
  abbrev pub Call : Type 0
  Call = Text × (ToolResult × Text)

  -- What the calls of tools change.
  pub record Workshop : Type 0 where
    pub tools : ToolRegistry
    pub emitter : Option (SeqEmitter api.Value)

  unfoldable pub announce : AgentEventKind api.Value → Workshop → Workshop
  unfolding emit_to
  announce kind w = record w { emitter = emit_to kind w.emitter }

  unfoldable pub after_run :
      Text → Text → StdResult ToolResult Text × api.Tool → Workshop → StdResult Call Text × Workshop
  unfolding insert announce
  after_run id name (err problem, tool) w =
      (err problem, record w { tools = insert name tool w.tools })
  after_run id name (ok res, tool) w = (
    ok (id, (res, name)),
    announce (AgentEventKind.tool_output name res.raw_bytes res.content)
        (record w { tools = insert name tool w.tools }),
  )

  unfoldable pub call_tool :
      Text → Text → api.Value → Option api.Tool → Workshop → StdResult Call Text × Workshop
  unfolding after_run
  call_tool id name input none w = (err (codes "unknown tool: " ++ name), w)
  call_tool id name input (some tool) w = after_run id name (api.run_tool tool input) w

  abbrev pub keep_call :
      Call → StdResult (List Call) Text × Workshop → StdResult (List Call) Text × Workshop
  keep_call call (err problem, w) = (err problem, w)
  keep_call call (ok calls, w) = (ok (call ∷ calls), w)

  -- The first failure ends the calls.
  abbrev pub then_calls :
      StdResult Call Text × Workshop
      → (Workshop → StdResult (List Call) Text × Workshop)
      → StdResult (List Call) Text × Workshop
  then_calls (err problem, w) more = (err problem, w)
  then_calls (ok call, w) more = keep_call call (more w)

  unfoldable pub run_tool_calls_with_events :
      List (ContentBlock api.Value) → Workshop → StdResult (List Call) Text × Workshop
  unfolding announce call_tool get
  run_tool_calls_with_events [] w = (ok [], w)
  run_tool_calls_with_events (ContentBlock.tool_use id name input ∷ blocks) w =
      let started = announce (AgentEventKind.tool_start name input) w in
      then_calls (call_tool id name input (get name started.tools) started)
        (λ next. run_tool_calls_with_events blocks next)
  run_tool_calls_with_events (ContentBlock.text _ ∷ blocks) w = run_tool_calls_with_events blocks w
  run_tool_calls_with_events (ContentBlock.tool_result _ _ _ ∷ blocks) w =
      run_tool_calls_with_events blocks w

-- What `apply_filter` writes for a line.
unfoldable pub written : FilterResult → Text → Text
written FilterResult.pass line = line ++ 10 ∷ []
written FilterResult.suppress line = []
written (FilterResult.suppress_with_note _) line = []
written (FilterResult.replace s) line = s ++ 10 ∷ []
written (FilterResult.annotate _) line = line ++ 10 ∷ []

module _ (case : CaseApi) (regex : RegexApi) where
  open regex use {Re, ReSet}

  unfoldable pub filter_lines :
      FilterPlugin Re ReSet → Text → List Text → Text × FilterPlugin Re ReSet
  unfolding filter written
  filter_lines plugin tool_name [] = ([], plugin)
  filter_lines plugin tool_name (line ∷ lines) =
      let (result, plugin') = filter case regex plugin line tool_name [] in
      let (rest, plugin'') = filter_lines plugin' tool_name lines in
      (written result line ++ rest, plugin'')

  unfoldable pub apply_filter : FilterPlugin Re ReSet → Text → Text → Text × FilterPlugin Re ReSet
  unfolding filter_lines lines_of flush
  apply_filter plugin tool_name content =
      let (out, plugin') = filter_lines plugin tool_name (lines_of content) in
      (out ++ flush plugin', plugin')
