-- ===== src/Agent/Numbered.antt =====
-- crates/jkr-agent/src/events.rs and crates/jkr-agent/src/loop_.rs: the numbers of the events.
use tkr.Prelude.{
  ℕ, zero, suc, ◌+◌, ◌≡◌, Option, none, some, List, [], ◌∷◌, ◌++◌, Text, length, length-append,
  StdResult, ok, err, if◌then◌else◌, if_cases, arith, u64,
}
use tkr.Table.{get}
use tkr.Filter.Regex.{RegexApi}
use tkr.Filter.Apply.Words.{CaseApi}
use tkr.Filter.Plugin.{FilterPlugin, is_empty}
use tkr.Agent.Message.{
  ContentBlock, Message, StopReason, ProviderResponse, AgentEvent, AgentEventKind, SeqEmitter,
  new_emitter, emit, emit_to,
}
use tkr.Agent.Tools.{
  ToolResult, AgentApi, Workshop, Call, announce, after_run, call_tool, keep_call, then_calls,
  collect_text, run_tool_calls_with_events, ToolRegistry, schemas,
}
use tkr.Agent.Loop.{
  Manifest, RunOutcome, Running, Round, say, push, result_blocks, after_calls, stop, after_stop,
  after_send, count_tokens, run_step, result_of, run_loop, run,
}

-- The events from a number on, counted in 64 bits.
unfoldable pub Numbered : {Value : Type 0} → ℕ → List (AgentEvent Value) → Type 0
Numbered n [] = Unit
Numbered n (e ∷ events) = (e.seq ≡ u64 n) × Numbered (n + 1) events

-- An emitter whose events are numbered from 0, and whose next number follows.
unfoldable pub Counting : {Value : Type 0} → Option (SeqEmitter Value) → Type 0
unfolding Numbered
Counting none = Unit
Counting (some emitter) = Numbered 0 emitter.events × (emitter.next ≡ u64 (length emitter.events))

append-Numbered :
    {Value : Type 0} (n : ℕ) (events : List (AgentEvent Value)) (last : AgentEvent Value)
    → Numbered n events
    → last.seq ≡ u64 (n + length events)
    → Numbered n (events ++ last ∷ [])
unfolding Numbered
append-Numbered n [] last h e = (omega (arith, e), tt)
append-Numbered n (event ∷ events) last h e =
    (h.0, append-Numbered (n + 1) events last h.1 (omega (arith, e)))

emit_to-Counting :
    {Value : Type 0} (kind : AgentEventKind Value) (emitter : Option (SeqEmitter Value))
    → Counting emitter
    → Counting (emit_to kind emitter)
unfolding Counting emit_to emit
emit_to-Counting kind none h = tt
emit_to-Counting kind (some emitter) h =
    let last : AgentEvent _ = record { seq = emitter.next; kind = kind } in
    (
      append-Numbered 0 emitter.events last h.0 (omega (arith, h.1)),
      omega (arith, h.1, length-append emitter.events (last ∷ [])),
    )

module _ (api : AgentApi) where
  CallsCount : StdResult (List (Call api)) Text × Workshop api → Type 0
  CallsCount (x, w) = Counting w.emitter

  keep_call-CallsCount :
      (call : Call api) (later : StdResult (List (Call api)) Text × Workshop api)
      → CallsCount later
      → CallsCount (keep_call api call later)
  unfolding CallsCount
  keep_call-CallsCount call (err problem, w) h = h
  keep_call-CallsCount call (ok calls, w) h = h

  call_tool-CallsCount :
      (id name : Text) (input : api.Value) (found : Option api.Tool) (w : Workshop api)
      (more : Workshop api → StdResult (List (Call api)) Text × Workshop api)
      → Counting w.emitter
      → ((next : Workshop api) → Counting next.emitter → CallsCount (more next))
      → CallsCount (then_calls api (call_tool api id name input found w) more)
  unfolding call_tool after_run announce CallsCount
  call_tool-CallsCount id name input none w more h next = h
  call_tool-CallsCount id name input (some tool) w more h next = after (api.run_tool tool input)
    where
      after :
          (ran : StdResult ToolResult Text × api.Tool)
          → CallsCount (then_calls api (after_run api id name ran w) more)
      after (err problem, tool') = h
      after (ok res, tool') =
          keep_call-CallsCount (id, (res, name)) _
            (next _ (
              emit_to-Counting (AgentEventKind.tool_output name res.raw_bytes res.content) w.emitter
                h))

  calls-CallsCount :
      (content : List (ContentBlock api.Value)) (w : Workshop api)
      → Counting w.emitter
      → CallsCount (run_tool_calls_with_events api content w)
  unfolding run_tool_calls_with_events CallsCount announce
  calls-CallsCount [] w h = h
  calls-CallsCount (ContentBlock.tool_use id name input ∷ blocks) w h =
      let started = announce api (AgentEventKind.tool_start name input) w in
      call_tool-CallsCount id name input (get name started.tools) started
        (λ next. run_tool_calls_with_events api blocks next)
        (emit_to-Counting (AgentEventKind.tool_start name input) w.emitter h)
        (λ next still. calls-CallsCount blocks next still)
  calls-CallsCount (ContentBlock.text _ ∷ blocks) w h = calls-CallsCount blocks w h
  calls-CallsCount (ContentBlock.tool_result _ _ _ ∷ blocks) w h = calls-CallsCount blocks w h

  module _ (case : CaseApi) (regex : RegexApi) where
    RunCounts : Running api case regex → Type 0
    RunCounts r = Counting r.workshop.emitter

    RoundCounts : Round api case regex → Type 0
    unfolding RunCounts
    RoundCounts (Round.finished r) = RunCounts r
    RoundCounts (Round.failed problem r) = RunCounts r
    RoundCounts (Round.again r) = RunCounts r

    say-RunCounts :
        (kind : AgentEventKind api.Value) (r : Running api case regex)
        → RunCounts r
        → RunCounts (say api case regex kind r)
    unfolding RunCounts announce
    say-RunCounts kind r h = emit_to-Counting kind r.workshop.emitter h

    result_blocks-RunCounts :
        (calls : List (Call api)) (r : Running api case regex)
        → RunCounts r
        → RunCounts (result_blocks api case regex calls r).1
    unfolding result_blocks RunCounts
    result_blocks-RunCounts [] r h = h
    result_blocks-RunCounts ((id, (tr, tool_name)) ∷ calls) r h = result_blocks-RunCounts calls _ h

    after_calls-RoundCounts :
        (done : StdResult (List (Call api)) Text × Workshop api) (r : Running api case regex)
        → CallsCount done
        → RoundCounts (after_calls api case regex done r)
    unfolding CallsCount RoundCounts RunCounts
    after_calls-RoundCounts (err problem, w) r h = h
    after_calls-RoundCounts (ok calls, w) r h =
        result_blocks-RunCounts calls (record r { workshop = w }) h

    after_stop-RoundCounts :
        (reason : StopReason) (text : Text) (content : List (ContentBlock api.Value))
        (r : Running api case regex)
        → RunCounts r
        → RoundCounts (after_stop api case regex reason text content r)
    unfolding after_stop RoundCounts stop RunCounts
    after_stop-RoundCounts StopReason.end_turn text content r h = say-RunCounts _ r h
    after_stop-RoundCounts StopReason.max_tokens text content r h = say-RunCounts _ r h
    after_stop-RoundCounts StopReason.tool_use text content r h =
        after_calls-RoundCounts (run_tool_calls_with_events api content r.workshop) r
          (calls-CallsCount content r.workshop h)
    after_stop-RoundCounts (StopReason.other s) text content r h = say-RunCounts _ r h

    after_send-RoundCounts :
        (sent : StdResult (ProviderResponse api.Value) Text × api.Provider)
        (r : Running api case regex)
        → RunCounts r
        → RoundCounts (after_send api case regex sent r)
    unfolding after_send RoundCounts RunCounts
    after_send-RoundCounts (err problem, provider) r h = h
    after_send-RoundCounts (ok resp, provider) r h =
        let counted : Running api case regex = record r {
          outcome = count_tokens api case regex resp r.outcome;
          provider = provider;
        } in
        let text = collect_text resp.content in
        let told : Running api case regex =
          if is_empty text
          then counted
          else say api case regex (AgentEventKind.token text) counted in
        after_stop-RoundCounts resp.stop_reason text resp.content
          (push api case regex (Message.assistant resp.content) told)
          (if_cases RunCounts (is_empty text) counted
            (say api case regex (AgentEventKind.token text) counted) (λ _. h)
            (λ _. say-RunCounts (AgentEventKind.token text) counted h))

    result_of-RunCounts :
        (round : Round api case regex)
        (more : Running api case regex
          → StdResult (RunOutcome api case regex) Text × Running api case regex)
        → RoundCounts round
        → ((r : Running api case regex) → RunCounts r → RunCounts (more r).1)
        → RunCounts (result_of api case regex round more).1
    unfolding RoundCounts
    result_of-RunCounts (Round.finished r) more h next = h
    result_of-RunCounts (Round.failed problem r) more h next = h
    result_of-RunCounts (Round.again r) more h next = next r h

    run_loop-RunCounts :
        (manifest : Manifest) (shown : List api.Value) (remaining : ℕ) (r : Running api case regex)
        → RunCounts r
        → RunCounts (run_loop api case regex remaining manifest shown r).1
    unfolding run_loop run_step
    run_loop-RunCounts manifest shown zero r h = h
    run_loop-RunCounts manifest shown (suc remaining) r h =
        let steps = r.outcome.steps + 1 in
        let advanced : Running api case regex = record r {
          outcome = record r.outcome { steps = steps };
        } in
        let started = say api case regex (AgentEventKind.step steps manifest.max_steps) advanced in
        result_of-RunCounts (run_step api case regex manifest shown r)
          (λ next. run_loop api case regex remaining manifest shown next)
          (after_send-RoundCounts
            (api.send started.provider manifest.system started.outcome.messages shown 1024) started
            (say-RunCounts _ advanced (unfold RunCounts in h)))
          (λ next still. run_loop-RunCounts manifest shown remaining next still)

    -- However a run with a new emitter ends, with an outcome or an error, the numbers of its
    -- events, in the order in which they were written, are 0, 1, 2 and so on, in 64 bits.
    pub run-Numbered :
        (manifest : Manifest) (provider : api.Provider) (tools : ToolRegistry api)
        (plugin : Option (FilterPlugin regex.Re regex.ReSet))
        → Counting
            (run api case regex manifest provider tools plugin
              (some new_emitter)).1.workshop.emitter
    unfolding run RunCounts Counting
    run-Numbered manifest provider tools plugin =
        run_loop-RunCounts manifest (schemas api tools) manifest.max_steps _ (tt, omega arith)
