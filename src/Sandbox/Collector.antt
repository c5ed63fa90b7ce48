-- ===== src/Sandbox/Collector.antt =====
-- crates/jkr-sandbox/src/capture/mod.rs: the collector of what a command does.
pub mod Tally
pub mod Bounds
use tkr.Prelude.{
  ℕ, ◌+◌, ◌/◌, ◌%◌, Bool, true, false, not, ◌&&◌, ◌||◌, Option, none, some, List, [], ◌∷◌, ◌++◌,
  Text, text_eq, any, length, ◌==◌, leb, if◌then◌else◌, u32,
}
use tkr.Sandbox.Trace.{
  FileEvent, FileOp, op_eq, same_flag, NetEvent, NetFamily, ExecEvent, TraceSummary, SandboxTrace,
  CaptureKind, trace_event_cap,
}
use tkr.Sandbox.Tracee.{Sysno, ℤ, Regs, Platform, Stopped, arg, read_cstr, read_sockaddr}
use tkr.Sandbox.Pids.{Pids, pid_get, pid_remove, pid_insert}
use tkr.Sandbox.Verdict.{denied_of, compute_verdict}

pub data PendingKind : Type 0 where
  file : Text → FileOp → PendingKind
  net : Text → NetFamily → PendingKind
  exec : Text → Text → PendingKind
  ignore : PendingKind

pub record EventCollector : Type 0 where
  pub files : List FileEvent
  pub net : List NetEvent
  pub execs : List ExecEvent
  pub truncated : Bool
  -- by process
  pub pending : Pids PendingKind
  pub writable_roots : List Text

-- `EventCollector::new`
abbrev pub new_collector : List Text → EventCollector
new_collector writable_roots = record {
  files = [];
  net = [];
  execs = [];
  truncated = false;
  pending = [];
  writable_roots = writable_roots;
}

-- The sums wrap around at 32 bits.
unfoldable pub files_total : List FileEvent → ℕ
files_total [] = 0
files_total (f ∷ files) = u32 (f.count + files_total files)

unfoldable pub net_total : List NetEvent → ℕ
net_total [] = 0
net_total (n ∷ events) = u32 (n.count + net_total events)

unfoldable pub finish : EventCollector → SandboxTrace
unfolding files_total net_total denied_of compute_verdict
finish c = record {
  files = c.files;
  net = c.net;
  execs = c.execs;
  summary = record {
    files_total = files_total c.files;
    net_total = net_total c.net;
    exec_total = u32 (length c.execs);
    denied_total = denied_of c.files c.net;
  };
  verdict = compute_verdict c.files c.net c.writable_roots;
  capture_kind = CaptureKind.full;
  truncated = c.truncated;
}

unfoldable pub same_file : Text → FileOp → Bool → FileEvent → Bool
same_file path op allowed e = text_eq e.path path && op_eq e.op op && same_flag e.allowed allowed

unfoldable pub same_net : Text → Bool → NetEvent → Bool
same_net addr allowed e = text_eq e.addr addr && same_flag e.allowed allowed

-- The increment of the first event that passes the test.
unfoldable pub bump_file : (FileEvent → Bool) → List FileEvent → List FileEvent
bump_file test [] = []
bump_file test (e ∷ files) =
    let rest = bump_file test files in
    if test e then (record e { count = u32 (e.count + 1) }) ∷ files else e ∷ rest

unfoldable pub bump_net : (NetEvent → Bool) → List NetEvent → List NetEvent
bump_net test [] = []
bump_net test (e ∷ events) =
    let rest = bump_net test events in
    if test e then (record e { count = u32 (e.count + 1) }) ∷ events else e ∷ rest

abbrev pub truncate : EventCollector → EventCollector
truncate c = record c { truncated = true }

unfoldable pub push_file : Text → FileOp → Bool → Option ℕ → EventCollector → EventCollector
unfolding same_file bump_file
push_file path op allowed errno c =
    let test = same_file path op allowed in
    if any test c.files
    then (record c { files = bump_file test c.files })
    else if leb trace_event_cap (length c.files)
    then truncate c
    else (record c {
      files =
          c.files
          ++ (record { path = path; op = op; allowed = allowed; errno = errno; count = 1 }) ∷ [];
    })

unfoldable pub push_net : Text → NetFamily → Bool → EventCollector → EventCollector
unfolding same_net bump_net
push_net addr family allowed c =
    let test = same_net addr allowed in
    if any test c.net
    then (record c { net = bump_net test c.net })
    else if leb trace_event_cap (length c.net)
    then truncate c
    else (record c {
      net = c.net ++ (record { addr = addr; family = family; allowed = allowed; count = 1 }) ∷ [];
    })

unfoldable pub push_exec : Text → Text → EventCollector → EventCollector
push_exec argv0 argv_preview c =
    if leb trace_event_cap (length c.execs) then truncate c else (record c {
      execs = c.execs ++ (record { argv0 = argv0; argv_preview = argv_preview }) ∷ [];
    })

unfoldable pub await : ℕ → PendingKind → EventCollector → EventCollector
unfolding pid_insert
await pid kind c = record c { pending = pid_insert pid kind c.pending }

-- O_WRONLY is 1 and O_RDWR is 2.
unfoldable pub open_op : ℕ → FileOp
open_op flags = if flags % 2 == 1 || flags / 2 % 2 == 1 then FileOp.write else FileOp.read

abbrev pub net_kind : Option (Text × NetFamily) → PendingKind
net_kind (some (addr, family)) = PendingKind.net addr family
net_kind none = PendingKind.ignore

module _ (platform : Platform) where
  unfoldable pub entry_kind : Stopped → Regs → Sysno → PendingKind
  unfolding read_cstr read_sockaddr open_op
  entry_kind process regs Sysno.openat =
      PendingKind.file (read_cstr platform process (arg regs 1)) (open_op (arg regs 2))
  entry_kind process regs Sysno.open_ =
      PendingKind.file (read_cstr platform process (arg regs 0)) (open_op (arg regs 1))
  entry_kind process regs Sysno.newfstatat =
      PendingKind.file (read_cstr platform process (arg regs 1)) FileOp.stat
  entry_kind process regs Sysno.statx =
      PendingKind.file (read_cstr platform process (arg regs 1)) FileOp.stat
  entry_kind process regs Sysno.unlinkat =
      PendingKind.file (read_cstr platform process (arg regs 1)) FileOp.delete
  entry_kind process regs Sysno.connect = net_kind (read_sockaddr platform process (arg regs 1))
  entry_kind process regs Sysno.execve =
      let argv0 = read_cstr platform process (arg regs 0) in PendingKind.exec argv0 argv0
  entry_kind process regs Sysno.other = PendingKind.ignore

  unfoldable pub known_kind : Stopped → Regs → Option Sysno → PendingKind
  unfolding entry_kind
  known_kind process regs none = PendingKind.ignore
  known_kind process regs (some sysno) = entry_kind process regs sysno

  unfoldable pub enter_with : ℕ → Stopped → Option Regs → EventCollector → EventCollector
  unfolding await known_kind
  enter_with pid process none c = c
  enter_with pid process (some regs) c =
      await pid (known_kind process regs (platform.sysno_new regs.syscall_nr)) c

  unfoldable pub on_entry : ℕ → Stopped → EventCollector → EventCollector
  unfolding enter_with
  on_entry pid process c = enter_with pid process process.getregs c

-- A finished call, by what it returned; an `errno` is the 32 bits of an `i32`.
unfoldable pub record_exit : PendingKind → ℤ → EventCollector → EventCollector
unfolding push_file push_net push_exec
record_exit (PendingKind.file [] op) ret c = c
record_exit (PendingKind.file path op) (ℤ.pos n) c = push_file path op true none c
record_exit (PendingKind.file path op) (ℤ.negsuc n) c =
    push_file path op false (some (u32 (n + 1))) c
record_exit (PendingKind.net addr family) (ℤ.pos n) c = push_net addr family true c
record_exit (PendingKind.net addr family) (ℤ.negsuc n) c = push_net addr family false c
record_exit (PendingKind.exec [] preview) ret c = c
record_exit (PendingKind.exec argv0 preview) (ℤ.pos n) c = push_exec argv0 preview c
record_exit (PendingKind.exec argv0 preview) (ℤ.negsuc n) c = c
record_exit PendingKind.ignore ret c = c

unfoldable pub leave_with : Option Regs → PendingKind → EventCollector → EventCollector
unfolding record_exit
leave_with none kind c = c
leave_with (some regs) kind c = record_exit kind regs.retval c

unfoldable pub exit_with : ℕ → Option Regs → Option PendingKind → EventCollector → EventCollector
unfolding leave_with pid_remove
exit_with pid regs none c = c
exit_with pid regs (some kind) c =
    leave_with regs kind (record c { pending = pid_remove pid c.pending })

unfoldable pub on_exit : ℕ → Stopped → EventCollector → EventCollector
unfolding exit_with pid_get
on_exit pid process c = exit_with pid process.getregs (pid_get pid c.pending) c
