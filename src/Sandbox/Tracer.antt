-- ===== src/Sandbox/Tracer.antt =====
-- crates/jkr-sandbox/src/capture/linux_ptrace.rs: the loop of the tracer. What `waitpid` reports is
-- the kernel's; each report is a step.
pub mod Paired
use tkr.Prelude.{
  ℕ, Bool, true, false, not, ◌&&◌, ◌||◌, Option, none, some, List, [], ◌∷◌, Text, ◌==◌,
  if◌then◌else◌, StdResult, ok, err,
}
use tkr.Sandbox.Policy.{SandboxPolicy}
use tkr.Sandbox.Trace.{SandboxTrace}
use tkr.Sandbox.Tracee.{ℤ, Platform, Stopped}
use tkr.Sandbox.Pids.{Pids, pid_get, pid_remove, pid_insert}
use tkr.Sandbox.Collector.{EventCollector, new_collector, on_entry, on_exit, finish}

pub data WaitStatus : Type 0 where
  ptrace_syscall : ℕ → Stopped → WaitStatus
  ptrace_event : ℕ → WaitStatus
  exited : ℕ → ℤ → WaitStatus
  signaled : ℕ → WaitStatus
  stopped : ℕ → ℕ → WaitStatus
  other_status : WaitStatus

-- `waitpid(None, None)`
pub data Waited : Type 0 where
  status : WaitStatus → Waited
  no_child : Waited
  wait_failed : Text → Waited

pub record Tracer : Type 0 where
  -- for each process, whether its next stop is the entry of a call
  pub states : Pids Bool
  pub collector : EventCollector
  pub exit_code : ℤ
  -- the processes that were let go on, and the signals delivered to them, the last first
  pub resumed : List (ℕ × Option ℕ)

pub record SandboxOutput : Type 0 where
  pub stdout : List ℕ
  pub stderr : List ℕ
  pub exit : ℤ
  pub truncated : Bool

abbrev pub start_tracer : ℕ → SandboxPolicy → Tracer
start_tracer root policy = record {
  states = (root, true) ∷ [];
  collector = new_collector policy.fs_write;
  exit_code = ℤ.negsuc 0;
  resumed = (root, none) ∷ [];
}

-- `states.entry(pid).or_insert(..)`
abbrev pub or_entry : Option Bool → Bool
or_entry none = true
or_entry (some at_entry) = at_entry

-- SIGTRAP is 5 and SIGSTOP is 19.
abbrev pub deliver : ℕ → Option ℕ
deliver sig = if sig == 5 || sig == 19 then none else some sig

module _ (platform : Platform) where
  unfoldable pub observe : Bool → ℕ → Stopped → EventCollector → EventCollector
  unfolding on_entry on_exit
  observe true pid process c = on_entry platform pid process c
  observe false pid process c = on_exit pid process c

  unfoldable pub handle : ℕ → WaitStatus → Tracer → Tracer
  unfolding observe pid_get pid_insert pid_remove
  handle root (WaitStatus.ptrace_syscall pid process) t =
      let at_entry = or_entry (pid_get pid t.states) in
      record t {
        states = pid_insert pid (not at_entry) t.states;
        collector = observe at_entry pid process t.collector;
        resumed = (pid, none) ∷ t.resumed;
      }
  handle root (WaitStatus.ptrace_event pid) t = record t { resumed = (pid, none) ∷ t.resumed }
  handle root (WaitStatus.exited pid code) t = record t {
    states = pid_remove pid t.states;
    exit_code = if pid == root then code else t.exit_code;
  }
  handle root (WaitStatus.signaled pid) t = record t { states = pid_remove pid t.states }
  handle root (WaitStatus.stopped pid sig) t = record t { resumed = (pid, deliver sig) ∷ t.resumed }
  handle root WaitStatus.other_status t = t

  -- The exits and signals that leave no process end the loop.
  abbrev pub ends : WaitStatus → Bool
  ends (WaitStatus.exited pid code) = true
  ends (WaitStatus.signaled pid) = true
  ends _ = false

  abbrev pub is_empty : Pids Bool → Bool
  is_empty [] = true
  is_empty _ = false

  abbrev pub output : Tracer → SandboxOutput × SandboxTrace
  output t = (
    record { stdout = []; stderr = []; exit = t.exit_code; truncated = false },
    finish t.collector,
  )

  -- The result, if the reports suffice for one.
  unfoldable pub run_tracer :
      ℕ → List Waited → Tracer → Option (StdResult (SandboxOutput × SandboxTrace) Text)
  unfolding handle
  run_tracer root [] t = none
  run_tracer root (Waited.no_child ∷ reports) t = some (ok (output t))
  run_tracer root (Waited.wait_failed problem ∷ reports) t = some (err problem)
  run_tracer root (Waited.status s ∷ reports) t =
      let next = handle root s t in
      let rest = run_tracer root reports next in
      if ends s && is_empty next.states then some (ok (output next)) else rest
