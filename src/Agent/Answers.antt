-- ===== src/Agent/Answers.antt =====
-- crates/jkr-agent/src/loop_.rs: the tool results that answer the uses of tools.
use tkr.Prelude.{◌≡◌, refl, ap, Option, none, some, List, [], ◌∷◌, Text, map, StdResult, ok, err}
use tkr.Table.{get}
use tkr.Filter.Regex.{RegexApi}
use tkr.Filter.Apply.Words.{CaseApi}
use tkr.Agent.Message.{ContentBlock, AgentEventKind}
use tkr.Agent.Tools.{
  ToolResult, AgentApi, Workshop, announce, after_run, call_tool, Call, keep_call, then_calls,
  run_tool_calls_with_events,
}
use tkr.Agent.Loop.{Running, result_blocks}

unfoldable pub tool_use_ids : {Value : Type 0} → List (ContentBlock Value) → List Text
tool_use_ids [] = []
tool_use_ids (ContentBlock.tool_use id _ _ ∷ blocks) = id ∷ tool_use_ids blocks
tool_use_ids (ContentBlock.text _ ∷ blocks) = tool_use_ids blocks
tool_use_ids (ContentBlock.tool_result _ _ _ ∷ blocks) = tool_use_ids blocks

abbrev pub result_id : {Value : Type 0} → ContentBlock Value → Option Text
result_id (ContentBlock.tool_result id _ _) = some id
result_id _ = none

-- The blocks are one result for each use of a tool, in the same order.
unfoldable pub Answers :
    {Value : Type 0} → List (ContentBlock Value) → List (ContentBlock Value) → Type 0
unfolding tool_use_ids
Answers content blocks = map result_id blocks ≡ map some (tool_use_ids content)

module _ (api : AgentApi) where
  abbrev pub call_id : Call api → Option Text
  call_id call = some (call.0)

  -- Calls that succeeded were those of these ids, in this order.
  unfoldable pub CallsOf : List Text → StdResult (List (Call api)) Text × Workshop api → Type 0
  CallsOf ids (err _, w) = Unit
  CallsOf ids (ok calls, w) = map call_id calls ≡ map some ids

  keep_call-CallsOf :
      (call : Call api) (ids : List Text) (later : StdResult (List (Call api)) Text × Workshop api)
      → CallsOf ids later
      → CallsOf (call.0 ∷ ids) (keep_call api call later)
  unfolding CallsOf
  keep_call-CallsOf call ids (err problem, w) h = tt
  keep_call-CallsOf call ids (ok calls, w) h = ap (◌∷◌ (some (call.0))) h

  call_tool-CallsOf :
      (id name : Text) (input : api.Value) (found : Option api.Tool) (w : Workshop api)
      (more : Workshop api → StdResult (List (Call api)) Text × Workshop api) (ids : List Text)
      → ((next : Workshop api) → CallsOf ids (more next))
      → CallsOf (id ∷ ids) (then_calls api (call_tool api id name input found w) more)
  unfolding call_tool after_run CallsOf
  call_tool-CallsOf id name input none w more ids h = tt
  call_tool-CallsOf id name input (some tool) w more ids h = after (api.run_tool tool input)
    where
      after :
          (ran : StdResult ToolResult Text × api.Tool)
          → CallsOf (id ∷ ids) (then_calls api (after_run api id name ran w) more)
      after (err problem, tool') = tt
      after (ok res, tool') = keep_call-CallsOf (id, (res, name)) ids _ (h _)

  pub run_tool_calls-CallsOf :
      (content : List (ContentBlock api.Value)) (w : Workshop api)
      → CallsOf (tool_use_ids content) (run_tool_calls_with_events api content w)
  unfolding tool_use_ids run_tool_calls_with_events CallsOf
  run_tool_calls-CallsOf [] w = refl
  run_tool_calls-CallsOf (ContentBlock.tool_use id name input ∷ blocks) w =
      let started = announce api (AgentEventKind.tool_start name input) w in
      call_tool-CallsOf id name input (get name started.tools) started
        (λ next. run_tool_calls_with_events api blocks next) (tool_use_ids blocks)
        (λ next. run_tool_calls-CallsOf blocks next)
  run_tool_calls-CallsOf (ContentBlock.text _ ∷ blocks) w = run_tool_calls-CallsOf blocks w
  run_tool_calls-CallsOf (ContentBlock.tool_result _ _ _ ∷ blocks) w =
      run_tool_calls-CallsOf blocks w

  module _ (case : CaseApi) (regex : RegexApi) where
    -- What the results of tools leave of an outcome.
    unfoldable pub Same : Running api case regex → Running api case regex → Type 0
    Same r r' =
        (r'.outcome.messages ≡ r.outcome.messages)
        × (r'.outcome.steps ≡ r.outcome.steps)
        × (r'.outcome.final_text ≡ r.outcome.final_text)

    pub result_blocks-ids :
        (calls : List (Call api)) (r : Running api case regex)
        → map result_id (result_blocks api case regex calls r).0 ≡ map call_id calls
    unfolding result_blocks
    result_blocks-ids [] r = refl
    result_blocks-ids ((id, (tr, tool_name)) ∷ calls) r =
        ap (◌∷◌ (some id)) (result_blocks-ids calls _)

    pub result_blocks-Same :
        (calls : List (Call api)) (r : Running api case regex)
        → Same r (result_blocks api case regex calls r).1
    unfolding result_blocks Same
    result_blocks-Same [] r = (refl, refl, refl)
    result_blocks-Same ((id, (tr, tool_name)) ∷ calls) r = result_blocks-Same calls _
