-- ===== src/Samples/AgentExamples.antt =====
-- The theorems on crates/jkr-agent at a small run.
use tkr.Prelude.{
  ℕ, ◌≡◌, refl, Bool, true, false, Option, none, some, List, [], ◌∷◌, Text, codes, text_eq,
  text_eq_iff, ok, StdResult, ap,
}
use tkr.Table.{get}
use tkr.Sandbox.Tracee.{ℤ}
use tkr.Agent.Message.{ContentBlock, Message, StopReason, ProviderResponse, new_emitter}
use tkr.Agent.Tools.{AgentApi, ToolResult, ToolRegistry}
use tkr.Agent.Loop.{Manifest, RunOutcome, Running, run}
use tkr.Agent.Transcript.{Ended, run-Ended}
use tkr.Agent.Success.{Ran, GoodAnswer, Expected, UsesKnown, Registered, run-Ran}
use tkr.Agent.Numbered.{Counting, run-Numbered}
use tkr.Samples.{ascii_case}
use tkr.Samples.Regexes.{literals}

-- A provider that uses the tool `echo` once and then ends its turn; values are texts.
abbrev first_answer : ProviderResponse Text
first_answer = record {
  content = ContentBlock.tool_use (codes "1") (codes "echo") (codes "hi") ∷ [];
  stop_reason = StopReason.tool_use;
  input_tokens = 5;
  output_tokens = 7;
}

abbrev last_answer : ProviderResponse Text
last_answer = record {
  content = ContentBlock.text (codes "done") ∷ [];
  stop_reason = StopReason.end_turn;
  input_tokens = 9;
  output_tokens = 1;
}

abbrev echoed : Text → ToolResult
echoed s = record { content = s; raw_bytes = 2; filtered_bytes = 2; exit = ℤ.pos 0 }

abbrev answer_of : Bool → StdResult (ProviderResponse Text) Text × Bool
answer_of false = (ok first_answer, true)
answer_of true = (ok last_answer, true)

abbrev echo_api : AgentApi
echo_api = record {
  Value = Text;
  Tool = Text;
  Provider = Bool;
  name = λ tool. tool;
  input_schema = λ tool. tool;
  run_tool = λ tool input. (ok (echoed input), tool);
  schema_json = λ name schema. name;
  send = λ used system messages shown max_tokens. answer_of used;
}

abbrev tools : ToolRegistry echo_api
tools = (codes "echo", codes "echo") ∷ []

abbrev manifest : Manifest
manifest = record { system = none; task = codes "go"; max_steps = 3 }

-- What the two rounds leave.
abbrev outcome : RunOutcome echo_api ascii_case literals
outcome = record {
  final_text = codes "done";
  steps = 2;
  input_tokens_total = 14;
  output_tokens_total = 8;
  raw_bytes_total = 2;
  filtered_bytes_total = 2;
  messages =
      Message.user (ContentBlock.text (codes "go") ∷ [])
      ∷ Message.assistant first_answer.content
      ∷ Message.user (ContentBlock.tool_result (codes "1") (codes "hi") false ∷ [])
      ∷ Message.assistant last_answer.content
      ∷ [];
}

abbrev left : Running echo_api ascii_case literals
left = record {
  outcome = outcome;
  workshop = record { tools = tools; emitter = none };
  plugin = none;
  provider = true;
}

run-outcome : run echo_api ascii_case literals manifest false tools none none ≡ (ok outcome, left)
unfolding run
run-outcome = refl

run-Ended_example : Ended (codes "go") 3 2 (codes "done") outcome.messages
run-Ended_example =
    run-Ended echo_api ascii_case literals manifest false tools none none outcome left run-outcome

run-Numbered_example :
    Counting
      (run echo_api ascii_case literals manifest false tools none
        (some new_emitter)).1.workshop.emitter
run-Numbered_example = run-Numbered echo_api ascii_case literals manifest false tools none

abbrev is_echo : Text → Bool
is_echo name = text_eq name (codes "echo")

echo_works : (tool input : Text) → Ran (echo_api.run_tool tool input)
unfolding Ran
echo_works tool input = tt

echo_answers :
    (used : Bool) (system : Option Text) (messages : List (Message Text)) (shown : List Text)
    (max_tokens : ℕ)
    → GoodAnswer is_echo (echo_api.send used system messages shown max_tokens)
unfolding GoodAnswer Expected UsesKnown
echo_answers false system messages shown max_tokens = (tt, (refl, tt))
echo_answers true system messages shown max_tokens = (tt, tt)

tools-Registered : Registered echo_api is_echo tools
unfolding Registered get
tools-Registered name known = (codes "echo", found ((text_eq_iff name (codes "echo")).0 known))
  where
    found : name ≡ codes "echo" → get name tools ≡ some (codes "echo")
    found e = ap (λ n. get n tools) e

run-Ran_example : Ran (run echo_api ascii_case literals manifest false tools none none)
run-Ran_example =
    run-Ran echo_api is_echo echo_works ascii_case literals echo_answers manifest false tools none
      none tools-Registered
