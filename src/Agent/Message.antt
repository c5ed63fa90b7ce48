-- ===== src/Agent/Message.antt =====
-- The messages of crates/jkr-agent/src/provider.rs, the events of crates/jkr-api/src/agent_event.rs
-- and the emitter of crates/jkr-agent/src/events.rs. A `serde_json::Value` is a parameter.
use tkr.Prelude.{ℕ, ◌+◌, Bool, Option, none, some, List, [], ◌∷◌, ◌++◌, Text, u64}
use tkr.Sandbox.Tracee.{ℤ}

pub data ContentBlock (Value : Type 0) : Type 0 where
  text : Text → ContentBlock Value
  -- its id, the tool's name and the input
  tool_use : Text → Text → Value → ContentBlock Value
  -- the id of the use, the content and whether it is an error
  tool_result : Text → Text → Bool → ContentBlock Value

pub data Message (Value : Type 0) : Type 0 where
  user assistant : List (ContentBlock Value) → Message Value

pub data StopReason : Type 0 where
  end_turn tool_use max_tokens : StopReason
  other : Text → StopReason

pub record ProviderResponse (Value : Type 0) : Type 0 where
  pub content : List (ContentBlock Value)
  pub stop_reason : StopReason
  pub input_tokens : ℕ
  pub output_tokens : ℕ

pub data AgentEventKind (Value : Type 0) : Type 0 where
  step : ℕ → ℕ → AgentEventKind Value
  token : Text → AgentEventKind Value
  tool_start : Text → Value → AgentEventKind Value
  tool_output : Text → ℕ → Text → AgentEventKind Value
  done : ℤ → ℕ → AgentEventKind Value
  error : Text → Text → AgentEventKind Value

pub record AgentEvent (Value : Type 0) : Type 0 where
  pub seq : ℕ
  pub kind : AgentEventKind Value

-- With the sink that collects the events.
pub record SeqEmitter (Value : Type 0) : Type 0 where
  pub next : ℕ
  pub events : List (AgentEvent Value)

-- `SeqEmitter::new`
abbrev pub new_emitter : {Value : Type 0} → SeqEmitter Value
new_emitter = record { next = 0; events = [] }

unfoldable pub emit : {Value : Type 0} → AgentEventKind Value → SeqEmitter Value → SeqEmitter Value
emit kind emitter = record {
  next = u64 (emitter.next + 1);
  events = emitter.events ++ (record { seq = emitter.next; kind = kind }) ∷ [];
}

-- The macro `emit!`: nothing without an emitter.
unfoldable pub emit_to :
    {Value : Type 0} → AgentEventKind Value → Option (SeqEmitter Value) → Option (SeqEmitter Value)
unfolding emit
emit_to kind none = none
emit_to kind (some emitter) = some (emit kind emitter)
