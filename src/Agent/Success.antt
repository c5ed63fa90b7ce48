-- ===== src/Agent/Success.antt =====
-- crates/jkr-agent/src/loop_.rs: when a run does not fail.
use tkr.Prelude.{
  ℕ, zero, suc, ◌+◌, ◌≡◌, refl, sym, ap, ◌∙◌, subst, Bool, true, Option, some, List, [], ◌∷◌, Text,
  text_eq, text_eq_iff, StdResult, ok, err, if◌then◌else◌, Bool-cases, if_cases, inl, inr,
}
use tkr.Table.{get, insert, get-insert, get-insert_other}
use tkr.Filter.Regex.{RegexApi}
use tkr.Filter.Apply.Words.{CaseApi}
use tkr.Filter.Plugin.{FilterPlugin, is_empty}
use tkr.Agent.Message.{
  ContentBlock, Message, StopReason, ProviderResponse, AgentEventKind, SeqEmitter,
}
use tkr.Agent.Tools.{
  ToolResult, AgentApi, Workshop, Call, announce, after_run, call_tool, keep_call, then_calls,
  collect_text, run_tool_calls_with_events, ToolRegistry, schemas,
}
use tkr.Agent.Loop.{
  Manifest, RunOutcome, Running, Round, say, push, result_blocks, after_calls, after_stop,
  after_send, count_tokens, run_step, result_of, run_loop, run,
}

-- Every tool that the blocks use has a name that passes the test.
unfoldable pub UsesKnown : {Value : Type 0} → (Text → Bool) → List (ContentBlock Value) → Type 0
UsesKnown knows [] = Unit
UsesKnown knows (ContentBlock.tool_use id name input ∷ blocks) =
    (knows name ≡ true) × UsesKnown knows blocks
UsesKnown knows (_ ∷ blocks) = UsesKnown knows blocks

unfoldable pub Expected : StopReason → Type 0
Expected (StopReason.other s) = ⊥
Expected _ = Unit

-- A response that arrived, with one of the three reasons to stop and uses of known tools.
unfoldable pub GoodAnswer :
    {Value Provider : Type 0}
    → (Text → Bool)
    → StdResult (ProviderResponse Value) Text × Provider
    → Type 0
unfolding UsesKnown Expected
GoodAnswer knows (err problem, provider) = ⊥
GoodAnswer knows (ok resp, provider) = Expected resp.stop_reason × UsesKnown knows resp.content

unfoldable pub Ran : {T S : Type 0} → StdResult T Text × S → Type 0
Ran (err problem, s) = ⊥
Ran (ok value, s) = Unit

module _ (api : AgentApi) (knows : Text → Bool) where
  -- Every known tool is registered.
  unfoldable pub Registered : ToolRegistry api → Type 0
  Registered tools =
      (name : Text) → knows name ≡ true → (tool : api.Tool) × (get name tools ≡ some tool)

  insert-Registered :
      (name : Text) (tool : api.Tool) (tools : ToolRegistry api)
      → Registered tools
      → Registered (insert name tool tools)
  unfolding Registered
  insert-Registered name tool tools h other known = elim (Bool-cases (text_eq name other)) [
    | inl same ↦
        let e : name ≡ other = (text_eq_iff name other).0 same in
        (tool, ap (λ n. get n (insert name tool tools)) (sym e) ∙ get-insert name tool tools)
    | inr differ ↦
        let found = h other known in
        (found.0, get-insert_other name other tool tools differ ∙ found.1)
  ]

  CallsRan : StdResult (List (Call api)) Text × Workshop api → Type 0
  CallsRan (err problem, w) = ⊥
  CallsRan (ok calls, w) = Registered w.tools

  keep_call-CallsRan :
      (call : Call api) (later : StdResult (List (Call api)) Text × Workshop api)
      → CallsRan later
      → CallsRan (keep_call api call later)
  unfolding CallsRan
  keep_call-CallsRan call (err problem, w) h = h
  keep_call-CallsRan call (ok calls, w) h = h

  after_run-CallsRan :
      (id name : Text) (ran : StdResult ToolResult Text × api.Tool) (w : Workshop api)
      (more : Workshop api → StdResult (List (Call api)) Text × Workshop api)
      → Ran ran
      → Registered w.tools
      → ((next : Workshop api) → Registered next.tools → CallsRan (more next))
      → CallsRan (then_calls api (after_run api id name ran w) more)
  unfolding Ran after_run announce
  after_run-CallsRan id name (err problem, tool) w more h known next = absurd h
  after_run-CallsRan id name (ok res, tool) w more h known next =
      keep_call-CallsRan (id, (res, name)) _
        (next
          (announce api (AgentEventKind.tool_output name res.raw_bytes res.content)
            (record w { tools = insert name tool w.tools }))
          (insert-Registered name tool w.tools known))

  module _ (works : (tool : api.Tool) (input : api.Value) → Ran (api.run_tool tool input)) where
    calls-CallsRan :
        (content : List (ContentBlock api.Value)) (w : Workshop api)
        → UsesKnown knows content
        → Registered w.tools
        → CallsRan (run_tool_calls_with_events api content w)
    unfolding UsesKnown run_tool_calls_with_events CallsRan announce call_tool Registered
    calls-CallsRan [] w uses known = known
    calls-CallsRan (ContentBlock.tool_use id name input ∷ blocks) w uses known =
        let started = announce api (AgentEventKind.tool_start name input) w in
        let found = known name uses.0 in
        let more = λ (next : Workshop api). run_tool_calls_with_events api blocks next in
        subst (λ f. CallsRan (then_calls api (call_tool api id name input f started) more))
          (sym found.1)
          (after_run-CallsRan id name (api.run_tool found.0 input) started more
            (works found.0 input) known (λ next still. calls-CallsRan blocks next uses.1 still))
    calls-CallsRan (ContentBlock.text _ ∷ blocks) w uses known = calls-CallsRan blocks w uses known
    calls-CallsRan (ContentBlock.tool_result _ _ _ ∷ blocks) w uses known =
        calls-CallsRan blocks w uses known

    module _ (case : CaseApi) (regex : RegexApi) where
      -- A round that does not fail and keeps the tools.
      Lives : Round api case regex → Type 0
      Lives (Round.finished r) = Unit
      Lives (Round.failed problem r) = ⊥
      Lives (Round.again r) = Registered r.workshop.tools

      result_blocks-workshop :
          (calls : List (Call api)) (r : Running api case regex)
          → (result_blocks api case regex calls r).1.workshop ≡ r.workshop
      unfolding result_blocks
      result_blocks-workshop [] r = refl
      result_blocks-workshop ((id, (tr, tool_name)) ∷ calls) r = result_blocks-workshop calls _

      after_calls-Lives :
          (done : StdResult (List (Call api)) Text × Workshop api) (r : Running api case regex)
          → CallsRan done
          → Lives (after_calls api case regex done r)
      unfolding CallsRan Lives
      after_calls-Lives (err problem, w) r h = h
      after_calls-Lives (ok calls, w) r h =
          let r' : Running api case regex = record r { workshop = w } in
          subst (λ (v : Workshop api). Registered v.tools) (sym (result_blocks-workshop calls r')) h

      after_stop-Lives :
          (reason : StopReason) (text : Text) (content : List (ContentBlock api.Value))
          (r : Running api case regex)
          → Expected reason
          → UsesKnown knows content
          → Registered r.workshop.tools
          → Lives (after_stop api case regex reason text content r)
      unfolding after_stop Lives Expected
      after_stop-Lives StopReason.end_turn text content r expected uses known = tt
      after_stop-Lives StopReason.max_tokens text content r expected uses known = tt
      after_stop-Lives StopReason.tool_use text content r expected uses known =
          after_calls-Lives (run_tool_calls_with_events api content r.workshop) r
            (calls-CallsRan content r.workshop uses known)
      after_stop-Lives (StopReason.other s) text content r expected uses known = absurd expected

      after_send-Lives :
          (sent : StdResult (ProviderResponse api.Value) Text × api.Provider)
          (r : Running api case regex)
          → GoodAnswer knows sent
          → Registered r.workshop.tools
          → Lives (after_send api case regex sent r)
      unfolding after_send GoodAnswer announce
      after_send-Lives (err problem, provider) r good known = absurd good
      after_send-Lives (ok resp, provider) r good known =
          let counted : Running api case regex = record r {
            outcome = count_tokens api case regex resp r.outcome;
            provider = provider;
          } in
          let text = collect_text resp.content in
          let told : Running api case regex =
            if is_empty text
            then counted
            else say api case regex (AgentEventKind.token text) counted in
          after_stop-Lives resp.stop_reason text resp.content
            (push api case regex (Message.assistant resp.content) told) good.0 good.1
            (if_cases (λ (d : Running api case regex). Registered d.workshop.tools) (is_empty text)
              counted (say api case regex (AgentEventKind.token text) counted) (λ _. known)
              (λ _. known))

      result_of-Ran :
          (round : Round api case regex)
          (more : Running api case regex
            → StdResult (RunOutcome api case regex) Text × Running api case regex)
          → Lives round
          → ((r : Running api case regex) → Registered r.workshop.tools → Ran (more r))
          → Ran (result_of api case regex round more)
      unfolding Lives Ran
      result_of-Ran (Round.finished r) more h next = tt
      result_of-Ran (Round.failed problem r) more h next = h
      result_of-Ran (Round.again r) more h next = next r h

      module _
          (answers : (provider : api.Provider) (system : Option Text)
              (messages : List (Message api.Value)) (shown : List api.Value) (max_tokens : ℕ)
            → GoodAnswer knows (api.send provider system messages shown max_tokens)) where
        run_loop-Ran :
            (manifest : Manifest) (shown : List api.Value) (remaining : ℕ)
            (r : Running api case regex)
            → Registered r.workshop.tools
            → Ran (run_loop api case regex remaining manifest shown r)
        unfolding run_loop Ran run_step announce
        run_loop-Ran manifest shown zero r known = tt
        run_loop-Ran manifest shown (suc remaining) r known =
            let steps = r.outcome.steps + 1 in
            let started =
              say api case regex (AgentEventKind.step steps manifest.max_steps)
                (record r { outcome = record r.outcome { steps = steps } }) in
            result_of-Ran (run_step api case regex manifest shown r)
              (λ next. run_loop api case regex remaining manifest shown next)
              (after_send-Lives
                (api.send started.provider manifest.system started.outcome.messages shown 1024)
                started (answers _ _ _ _ _) known)
              (λ next still. run_loop-Ran manifest shown remaining next still)

        -- If no tool ever fails, every name that passes the test `knows` is the name of a
        -- registered tool, and the provider always answers, with an expected reason to stop and
        -- uses of such names only, then a run returns an outcome and no error, whatever the
        -- task, the number of rounds, the filter and the emitter.
        pub run-Ran :
            (manifest : Manifest) (provider : api.Provider) (tools : ToolRegistry api)
            (plugin : Option (FilterPlugin regex.Re regex.ReSet))
            (emitter : Option (SeqEmitter api.Value))
            → Registered tools
            → Ran (run api case regex manifest provider tools plugin emitter)
        unfolding run
        run-Ran manifest provider tools plugin emitter known =
            run_loop-Ran manifest (schemas api tools) manifest.max_steps _ known
