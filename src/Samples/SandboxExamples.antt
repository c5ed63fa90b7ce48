-- ===== src/Samples/SandboxExamples.antt =====
-- The theorems on crates/jkr-sandbox/src/capture at small inputs.
use tkr.Prelude.{
  ◌≡◌, refl, true, false, none, some, List, [], ◌∷◌, Text, codes, arith, ◌==◌, if◌then◌else◌,
}
use tkr.Sandbox.Policy.{default_policy}
use tkr.Sandbox.Trace.{FileEvent, FileOp, VerdictLevel}
use tkr.Sandbox.Verdict.{compute_verdict, is_sensitive}
use tkr.Sandbox.Verdict.Level.{compute_verdict-level, is_breach}
use tkr.Sandbox.Tracee.{ℤ, Sysno, Platform, Stopped}
use tkr.Sandbox.Collector.{new_collector, same_file}
use tkr.Sandbox.Collector.Tally.{Access, push_files, recorded, tally, push_files-tally}
use tkr.Sandbox.Tracer.{WaitStatus, start_tracer}
use tkr.Sandbox.Tracer.Paired.{IsPaired, even_stops, end_of, run_reports, run_reports-IsPaired}

abbrev key_file : Text
key_file = codes "/home/me/.ssh/id"

abbrev key_read : List FileEvent
key_read =
    (record { path = key_file; op = FileOp.read; allowed = true; errno = none; count = 1 }) ∷ []

compute_verdict-level_example : (compute_verdict key_read [] []).level ≡ VerdictLevel.suspicious
unfolding is_breach is_sensitive
compute_verdict-level_example = compute_verdict-level key_read [] []

abbrev read_key : Access
read_key = record { path = key_file; op = FileOp.read; allowed = true; errno = none }

abbrev read_notes : Access
read_notes = record { path = codes "/notes"; op = FileOp.read; allowed = true; errno = none }

abbrev accesses : List Access
accesses = read_key ∷ read_notes ∷ read_key ∷ []

push_files-whole : (push_files accesses (new_collector [])).truncated ≡ false
unfolding push_files
push_files-whole = refl

push_files-tally_example :
    recorded (same_file key_file FileOp.read true) (push_files accesses (new_collector [])).files
    ≡ 2
unfolding tally
push_files-tally_example =
    push_files-tally key_file FileOp.read true accesses [] (omega arith) push_files-whole

-- Number 257 is `openat`, and the others are `other`.
abbrev one_call : Platform
one_call = record {
  sysno_new = λ n. if n == 257 then some Sysno.openat else some Sysno.other;
  from_utf8_lossy = λ bytes. bytes;
  show_ipv6 = λ bytes. bytes;
}

abbrev at_open : Stopped
at_open = record {
  getregs =
      some (record { syscall_nr = 257; args = 0 ∷ 16 ∷ 0 ∷ 0 ∷ 0 ∷ 0 ∷ []; retval = ℤ.pos 3 });
  memory = λ address. some (b'/' ∷ b'a' ∷ 0 ∷ []);
}

abbrev open_stops : List WaitStatus
open_stops =
    WaitStatus.ptrace_syscall 7 at_open
    ∷ WaitStatus.ptrace_syscall 8 at_open
    ∷ WaitStatus.signaled 8
    ∷ WaitStatus.ptrace_syscall 7 at_open
    ∷ []

run_reports-IsPaired_example :
    IsPaired 7
      (even_stops 7 open_stops)
      (run_reports one_call 7 (start_tracer 7 default_policy) open_stops)
unfolding end_of
run_reports-IsPaired_example = run_reports-IsPaired one_call 7 7 default_policy open_stops refl
