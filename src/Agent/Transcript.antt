-- ===== src/Agent/Transcript.antt =====
-- crates/jkr-agent/src/loop_.rs: the messages of a run.
use tkr.Prelude.{
  ℕ, zero, suc, ◌+◌, ◌≤◌, ◌≡◌, refl, sym, ap, ◌∙◌, subst, Option, List, [], ◌∷◌, ◌++◌, Text,
  StdResult, ok, err, if_cases, arith, if◌then◌else◌,
}
use tkr.Filter.Regex.{RegexApi}
use tkr.Filter.Apply.Words.{CaseApi}
use tkr.Filter.Plugin.{FilterPlugin, is_empty}
use tkr.Agent.Message.{
  ContentBlock, Message, StopReason, ProviderResponse, AgentEventKind, SeqEmitter,
}
use tkr.Agent.Tools.{
  AgentApi, Workshop, Call, collect_text, run_tool_calls_with_events, ToolRegistry, schemas,
}
use tkr.Agent.Loop.{
  Manifest, RunOutcome, Running, Round, say, push, result_blocks, after_calls, stop, after_stop,
  after_send, count_tokens, run_step, result_of, run_loop, run,
}
use tkr.Agent.Answers.{
  tool_use_ids, Answers, CallsOf, run_tool_calls-CallsOf, Same, result_blocks-ids,
  result_blocks-Same,
}

-- The messages after so many rounds: the task, and for each round what the model said and the
-- results of the tools it used.
pub data Settled {Value : Type 0} (task : Text) : ℕ → List (Message Value) → Type 0 where
  asked : Settled task 0 (Message.user (ContentBlock.text task ∷ []) ∷ [])
  answered :
      (n : ℕ) (messages : List (Message Value)) (content blocks : List (ContentBlock Value))
      → Settled task n messages
      → Answers content blocks
      → Settled task
          (n + 1)
          (messages ++ Message.assistant content ∷ [] ++ Message.user blocks ∷ [])

-- How a run ends: after all its rounds, or with a message of the model.
pub data Ended {Value : Type 0} (task : Text) (max_steps : ℕ)
    : ℕ → Text → List (Message Value) → Type 0 where
  exhausted :
      (messages : List (Message Value))
      → Settled task max_steps messages
      → Ended task max_steps max_steps [] messages
  stopped :
      (n : ℕ) (messages : List (Message Value)) (content : List (ContentBlock Value))
      → Settled task n messages
      → n + 1 ≤ max_steps
      → Ended task max_steps
          (n + 1)
          (collect_text content)
          (messages ++ Message.assistant content ∷ [])

module _ (api : AgentApi) (case : CaseApi) (regex : RegexApi) where
  -- A run after `n` rounds.
  Between : Text → ℕ → Running api case regex → Type 0
  Between task n r =
      Settled task n r.outcome.messages × (r.outcome.steps ≡ n) × (r.outcome.final_text ≡ [])

  EndedRun : Text → ℕ → Running api case regex → Type 0
  EndedRun task max_steps r =
      Ended task max_steps r.outcome.steps r.outcome.final_text r.outcome.messages

  -- What a round after `n` others leads to.
  RoundFrom : Text → ℕ → ℕ → Round api case regex → Type 0
  RoundFrom task max_steps n (Round.finished r) = EndedRun task max_steps r
  RoundFrom task max_steps n (Round.failed problem r) = Unit
  RoundFrom task max_steps n (Round.again r) = Between task (n + 1) r

  -- A run whose model has just said `content`.
  Said : Text → ℕ → List (ContentBlock api.Value) → Running api case regex → Type 0
  Said task n content r =
      ((messages : List (Message api.Value)) × (Settled task n messages
          × (r.outcome.messages ≡ messages ++ Message.assistant content ∷ [])))
      × (r.outcome.steps ≡ n + 1)
      × (r.outcome.final_text ≡ [])

  after_calls-Between :
      (task : Text) (max_steps n : ℕ) (content : List (ContentBlock api.Value))
      (done : StdResult (List (Call api)) Text × Workshop api) (r : Running api case regex)
      → Said task n content r
      → CallsOf api (tool_use_ids content) done
      → RoundFrom task max_steps n (after_calls api case regex done r)
  unfolding RoundFrom Between Said Same CallsOf
  after_calls-Between task max_steps n content (err problem, w) r said h = tt
  after_calls-Between task max_steps n content (ok calls, w) r said h =
      let r' : Running api case regex = record r { workshop = w } in
      let blocks = (result_blocks api case regex calls r').0 in
      let same = result_blocks-Same api case regex calls r' in
      let answers : Answers content blocks =
        unfold Answers in result_blocks-ids api case regex calls r' ∙ h in
      (
        subst (λ ms. Settled task (n + 1) (ms ++ Message.user blocks ∷ []))
            (sym (same.0 ∙ said.0.1.1)) (answered n said.0.0 content blocks said.0.1.0 answers),
        same.1 ∙ said.1,
        same.2 ∙ said.2,
      )

  stop-EndedRun :
      (task : Text) (max_steps n : ℕ) (content : List (ContentBlock api.Value))
      (r : Running api case regex)
      → Said task n content r
      → n + 1 ≤ max_steps
      → EndedRun task max_steps (stop api case regex (collect_text content) r)
  unfolding EndedRun Said stop
  stop-EndedRun task max_steps n content r said h =
      subst (λ steps. Ended task max_steps steps (collect_text content) r.outcome.messages)
        (sym said.1)
        (subst (λ ms. Ended task max_steps (n + 1) (collect_text content) ms) (sym said.0.1.1)
          (stopped n said.0.0 content said.0.1.0 h))

  after_stop-RoundFrom :
      (task : Text) (max_steps n : ℕ) (reason : StopReason)
      (content : List (ContentBlock api.Value)) (r : Running api case regex)
      → Said task n content r
      → n + 1 ≤ max_steps
      → RoundFrom task max_steps n
          (after_stop api case regex reason (collect_text content) content r)
  unfolding after_stop RoundFrom
  after_stop-RoundFrom task max_steps n StopReason.end_turn content r said h =
      stop-EndedRun task max_steps n content r said h
  after_stop-RoundFrom task max_steps n StopReason.max_tokens content r said h =
      stop-EndedRun task max_steps n content r said h
  after_stop-RoundFrom task max_steps n StopReason.tool_use content r said h =
      after_calls-Between task max_steps n content
        (run_tool_calls_with_events api content r.workshop) r said
        (run_tool_calls-CallsOf api content r.workshop)
  after_stop-RoundFrom task max_steps n (StopReason.other s) content r said h = tt

  after_send-RoundFrom :
      (task : Text) (max_steps n : ℕ)
      (sent : StdResult (ProviderResponse api.Value) Text × api.Provider)
      (r : Running api case regex)
      → Settled task n r.outcome.messages
      → r.outcome.steps ≡ n + 1
      → r.outcome.final_text ≡ []
      → n + 1 ≤ max_steps
      → RoundFrom task max_steps n (after_send api case regex sent r)
  unfolding after_send RoundFrom Said
  after_send-RoundFrom task max_steps n (err problem, provider) r settled steps final h = tt
  after_send-RoundFrom task max_steps n (ok resp, provider) r settled steps final h =
      let counted : Running api case regex = record r {
        outcome = count_tokens api case regex resp r.outcome;
        provider = provider;
      } in
      let text = collect_text resp.content in
      let told : Running api case regex =
        if is_empty text then counted else say api case regex (AgentEventKind.token text) counted in
      let same : told.outcome ≡ counted.outcome =
        if_cases (λ (d : Running api case regex). d.outcome ≡ counted.outcome) (is_empty text)
          counted (say api case regex (AgentEventKind.token text) counted) (λ _. refl)
          (λ _. refl) in
      after_stop-RoundFrom task max_steps n resp.stop_reason resp.content
        (push api case regex (Message.assistant resp.content) told)
        (
          (
            r.outcome.messages,
            (settled, ap (λ o. o.messages ++ Message.assistant resp.content ∷ []) same),
          ),
          ap (λ o. o.steps) same ∙ steps,
          ap (λ o. o.final_text) same ∙ final,
        )
        h

  -- What a finished run gives.
  OkEnded : Text → ℕ → StdResult (RunOutcome api case regex) Text × Running api case regex → Type 0
  OkEnded task max_steps (err problem, r) = Unit
  OkEnded task max_steps (ok outcome, r) =
      Ended task max_steps outcome.steps outcome.final_text outcome.messages

  result_of-OkEnded :
      (task : Text) (max_steps n : ℕ) (round : Round api case regex)
      (more : Running api case regex
        → StdResult (RunOutcome api case regex) Text × Running api case regex)
      → RoundFrom task max_steps n round
      → ((r : Running api case regex) → Between task (n + 1) r → OkEnded task max_steps (more r))
      → OkEnded task max_steps (result_of api case regex round more)
  unfolding RoundFrom OkEnded EndedRun
  result_of-OkEnded task max_steps n (Round.finished r) more h next = h
  result_of-OkEnded task max_steps n (Round.failed problem r) more h next = tt
  result_of-OkEnded task max_steps n (Round.again r) more h next = next r h

  run_loop-OkEnded :
      (manifest : Manifest) (shown : List api.Value) (remaining n : ℕ) (r : Running api case regex)
      → n + remaining ≡ manifest.max_steps
      → Between manifest.task n r
      → OkEnded manifest.task manifest.max_steps
          (run_loop api case regex remaining manifest shown r)
  unfolding run_loop OkEnded Between run_step
  run_loop-OkEnded manifest shown zero n r total h =
      let all_rounds : n ≡ manifest.max_steps = omega arith in
      subst
        (λ final. Ended manifest.task manifest.max_steps r.outcome.steps final r.outcome.messages)
        (sym h.2)
        (subst (λ steps. Ended manifest.task manifest.max_steps steps [] r.outcome.messages)
          (sym (h.1 ∙ all_rounds))
          (exhausted r.outcome.messages
            (subst (λ k. Settled manifest.task k r.outcome.messages) all_rounds h.0)))
  run_loop-OkEnded manifest shown (suc remaining) n r total h =
      let steps = r.outcome.steps + 1 in
      let started =
        say api case regex (AgentEventKind.step steps manifest.max_steps)
          (record r { outcome = record r.outcome { steps = steps } }) in
      result_of-OkEnded manifest.task manifest.max_steps n
        (run_step api case regex manifest shown r)
        (λ next. run_loop api case regex remaining manifest shown next)
        (after_send-RoundFrom manifest.task manifest.max_steps n
          (api.send started.provider manifest.system started.outcome.messages shown 1024) started
          h.0 (omega (arith, h.1)) h.2 (omega arith))
        (λ next between.
          run_loop-OkEnded manifest shown remaining (n + 1) next (omega arith) between)

  run-OkEnded :
      (manifest : Manifest) (provider : api.Provider) (tools : ToolRegistry api)
      (plugin : Option (FilterPlugin regex.Re regex.ReSet))
      (emitter : Option (SeqEmitter api.Value))
      → OkEnded manifest.task manifest.max_steps
          (run api case regex manifest provider tools plugin emitter)
  unfolding run Between
  run-OkEnded manifest provider tools plugin emitter =
      run_loop-OkEnded manifest (schemas api tools) manifest.max_steps 0 _ (omega arith)
        (asked, refl, refl)

  -- Whatever the provider and the tools do, a run that returns an outcome either made all its
  -- rounds, with an empty final text, or stopped in one of them with the text of the model's last
  -- message; its messages are the task, then for each round before the last what the model said
  -- and, in the same order and under the same ids, one result for each use of a tool in it; and its
  -- steps are the messages of the model, at most `max_steps`.
  pub run-Ended :
      (manifest : Manifest) (provider : api.Provider) (tools : ToolRegistry api)
      (plugin : Option (FilterPlugin regex.Re regex.ReSet))
      (emitter : Option (SeqEmitter api.Value)) (outcome : RunOutcome api case regex)
      (left : Running api case regex)
      → run api case regex manifest provider tools plugin emitter ≡ (ok outcome, left)
      → Ended manifest.task manifest.max_steps outcome.steps outcome.final_text outcome.messages
  unfolding OkEnded
  run-Ended manifest provider tools plugin emitter outcome left e =
      subst (OkEnded manifest.task manifest.max_steps) e
        (run-OkEnded manifest provider tools plugin emitter)
