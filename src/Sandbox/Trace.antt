-- ===== src/Sandbox/Trace.antt =====
-- crates/jkr-sandbox/src/capture/trace.rs: what was seen of a command.
use tkr.Prelude.{ℕ, Bool, true, false, Option, List, [], Text}

pub data CaptureKind : Type 0 where
  full denials_only no_capture : CaptureKind

pub data FileOp : Type 0 where
  read write stat delete rename : FileOp

pub data NetFamily : Type 0 where
  v4 v6 unix : NetFamily

pub record FileEvent : Type 0 where
  pub path : Text
  pub op : FileOp
  pub allowed : Bool
  pub errno : Option ℕ
  pub count : ℕ

pub record NetEvent : Type 0 where
  pub addr : Text
  pub family : NetFamily
  pub allowed : Bool
  pub count : ℕ

pub record ExecEvent : Type 0 where
  pub argv0 : Text
  pub argv_preview : Text

pub record TraceSummary : Type 0 where
  pub files_total : ℕ
  pub net_total : ℕ
  pub exec_total : ℕ
  pub denied_total : ℕ

pub data VerdictLevel : Type 0 where
  clean notable suspicious : VerdictLevel

pub record Flag : Type 0 where
  pub kind : Text
  pub severity : VerdictLevel
  pub detail : Text

pub record Verdict : Type 0 where
  pub level : VerdictLevel
  pub flags : List Flag

abbrev pub trace_event_cap : ℕ
trace_event_cap = 512

pub record SandboxTrace : Type 0 where
  pub files : List FileEvent
  pub net : List NetEvent
  pub execs : List ExecEvent
  pub summary : TraceSummary
  pub verdict : Verdict
  pub capture_kind : CaptureKind
  pub truncated : Bool

-- `SandboxTrace::none`
abbrev pub no_trace : SandboxTrace
no_trace = record {
  files = [];
  net = [];
  execs = [];
  summary = record { files_total = 0; net_total = 0; exec_total = 0; denied_total = 0 };
  verdict = record { level = VerdictLevel.clean; flags = [] };
  capture_kind = CaptureKind.no_capture;
  truncated = false;
}

-- `==` on the operations.
abbrev pub op_eq : FileOp → FileOp → Bool
op_eq FileOp.read FileOp.read = true
op_eq FileOp.write FileOp.write = true
op_eq FileOp.stat FileOp.stat = true
op_eq FileOp.delete FileOp.delete = true
op_eq FileOp.rename FileOp.rename = true
op_eq _ _ = false

-- `==` on `bool`.
abbrev pub same_flag : Bool → Bool → Bool
same_flag true true = true
same_flag false false = true
same_flag _ _ = false
