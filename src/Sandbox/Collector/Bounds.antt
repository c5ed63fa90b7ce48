-- ===== src/Sandbox/Collector/Bounds.antt =====
-- crates/jkr-sandbox/src/capture/mod.rs: what the collector's operations leave alone, and the cap.
use tkr.Prelude.{
  ℕ, ◌≤◌, ◌≡◌, ◌≢◌, refl, ap, ◌∙◌, Bool, false, Option, none, some, List, [], ◌∷◌, ◌++◌, Text, any,
  length, length-append, leb, if◌then◌else◌, if_cases, arith,
}
use tkr.Sandbox.Trace.{FileEvent, FileOp, NetEvent, NetFamily, ExecEvent, trace_event_cap}
use tkr.Sandbox.Tracee.{ℤ, Regs, Platform, Stopped}
use tkr.Sandbox.Pids.{
  pid_get, pid_remove, pid_get-pid_remove, pid_get-pid_remove_other, pid_get-pid_insert_other,
}
use tkr.Sandbox.Collector.{
  EventCollector, PendingKind, same_file, same_net, bump_file, bump_net, push_file, push_net,
  push_exec, truncate, record_exit, leave_with, exit_with, on_exit, enter_with, on_entry, await,
}

-- No table of events is longer than the cap.
unfoldable pub Capped : EventCollector → Type 0
Capped c =
    (length c.files ≤ trace_event_cap)
    × (length c.net ≤ trace_event_cap)
    × (length c.execs ≤ trace_event_cap)

-- A step that keeps the pending calls and the cap.
Kept : EventCollector → EventCollector → Type 0
Kept c d = (d.pending ≡ c.pending) × (Capped c → Capped d)

length-bump_file :
    (test : FileEvent → Bool) (files : List FileEvent)
    → length (bump_file test files) ≡ length files
unfolding bump_file
length-bump_file test [] = refl
length-bump_file test (e ∷ files) = ground (arith, length-bump_file test files)

length-bump_net :
    (test : NetEvent → Bool) (events : List NetEvent)
    → length (bump_net test events) ≡ length events
unfolding bump_net
length-bump_net test [] = refl
length-bump_net test (e ∷ events) = ground (arith, length-bump_net test events)

-- One more event fits where the cap is not reached.
length-room {ℓ} :
    {A : Type ℓ} (events : List A) (last : A)
    → leb trace_event_cap (length events) ≡ false
    → length (events ++ last ∷ []) ≤ trace_event_cap
length-room events last room = ground (arith, length-append events (last ∷ []))

push_file-Kept :
    (path : Text) (op : FileOp) (allowed : Bool) (errno : Option ℕ) (c : EventCollector)
    → Kept c (push_file path op allowed errno c)
unfolding push_file Kept Capped
push_file-Kept path op allowed errno c =
    let test = same_file path op allowed in
    let last : FileEvent = record {
      path = path;
      op = op;
      allowed = allowed;
      errno = errno;
      count = 1;
    } in
    if_cases (λ (d : EventCollector). Kept c d) (any test c.files)
      (record c { files = bump_file test c.files })
      (if leb trace_event_cap (length c.files)
        then truncate c
        else (record c { files = c.files ++ last ∷ [] }))
      (λ _. (refl, λ h. (ground (arith, h, length-bump_file test c.files), h.1, h.2)))
      (λ _.
        if_cases (λ (d : EventCollector). Kept c d) (leb trace_event_cap (length c.files))
          (truncate c) (record c { files = c.files ++ last ∷ [] }) (λ _. (refl, λ h. h))
          (λ room. (refl, λ h. (length-room c.files last room, h.1, h.2))))

push_net-Kept :
    (addr : Text) (family : NetFamily) (allowed : Bool) (c : EventCollector)
    → Kept c (push_net addr family allowed c)
unfolding push_net Kept Capped
push_net-Kept addr family allowed c =
    let test = same_net addr allowed in
    let last : NetEvent = record { addr = addr; family = family; allowed = allowed; count = 1 } in
    if_cases (λ (d : EventCollector). Kept c d) (any test c.net)
      (record c { net = bump_net test c.net })
      (if leb trace_event_cap (length c.net)
        then truncate c
        else (record c { net = c.net ++ last ∷ [] }))
      (λ _. (refl, λ h. (h.0, ground (arith, h, length-bump_net test c.net), h.2)))
      (λ _.
        if_cases (λ (d : EventCollector). Kept c d) (leb trace_event_cap (length c.net))
          (truncate c) (record c { net = c.net ++ last ∷ [] }) (λ _. (refl, λ h. h))
          (λ room. (refl, λ h. (h.0, length-room c.net last room, h.2))))

push_exec-Kept :
    (argv0 argv_preview : Text) (c : EventCollector) → Kept c (push_exec argv0 argv_preview c)
unfolding push_exec Kept Capped
push_exec-Kept argv0 argv_preview c =
    let last : ExecEvent = record { argv0 = argv0; argv_preview = argv_preview } in
    if_cases (λ (d : EventCollector). Kept c d) (leb trace_event_cap (length c.execs)) (truncate c)
      (record c { execs = c.execs ++ last ∷ [] }) (λ _. (refl, λ h. h))
      (λ room. (refl, λ h. (h.0, h.1, length-room c.execs last room)))

Kept-refl : (c : EventCollector) → Kept c c
unfolding Kept
Kept-refl c = (refl, λ h. h)

record_exit-Kept :
    (kind : PendingKind) (ret : ℤ) (c : EventCollector) → Kept c (record_exit kind ret c)
unfolding record_exit
record_exit-Kept (PendingKind.file [] op) ret c = Kept-refl c
record_exit-Kept (PendingKind.file (x ∷ path) op) (ℤ.pos n) c = push_file-Kept _ _ _ _ c
record_exit-Kept (PendingKind.file (x ∷ path) op) (ℤ.negsuc n) c = push_file-Kept _ _ _ _ c
record_exit-Kept (PendingKind.net addr family) (ℤ.pos n) c = push_net-Kept _ _ _ c
record_exit-Kept (PendingKind.net addr family) (ℤ.negsuc n) c = push_net-Kept _ _ _ c
record_exit-Kept (PendingKind.exec [] preview) ret c = Kept-refl c
record_exit-Kept (PendingKind.exec (x ∷ argv0) preview) (ℤ.pos n) c = push_exec-Kept _ _ c
record_exit-Kept (PendingKind.exec (x ∷ argv0) preview) (ℤ.negsuc n) c = Kept-refl c
record_exit-Kept PendingKind.ignore ret c = Kept-refl c

leave_with-Kept :
    (regs : Option Regs) (kind : PendingKind) (c : EventCollector) → Kept c (leave_with regs kind c)
unfolding leave_with
leave_with-Kept none kind c = Kept-refl c
leave_with-Kept (some regs) kind c = record_exit-Kept kind regs.retval c

-- What an exit leaves pending: all but the process's own call.
pub on_exit-pending :
    (pid : ℕ) (process : Stopped) (c : EventCollector)
    → (pid_get pid (on_exit pid process c).pending ≡ none)
      × ((other : ℕ)
          → pid ≢ other
          → pid_get other (on_exit pid process c).pending ≡ pid_get other c.pending)
      × (Capped c → Capped (on_exit pid process c))
unfolding on_exit exit_with Kept Capped
on_exit-pending pid process c = after (pid_get pid c.pending) refl
  where
    after :
        (found : Option PendingKind)
        → pid_get pid c.pending ≡ found
        → (pid_get pid (exit_with pid process.getregs found c).pending ≡ none)
          × ((other : ℕ)
              → pid ≢ other
              → pid_get other (exit_with pid process.getregs found c).pending
                ≡ pid_get other c.pending)
          × (Capped c → Capped (exit_with pid process.getregs found c))
    after none e = (e, λ other h. refl, λ h. h)
    after (some kind) e =
        let d : EventCollector = record c { pending = pid_remove pid c.pending } in
        let kept = leave_with-Kept process.getregs kind d in
        (
          ap (pid_get pid) kept.0 ∙ pid_get-pid_remove pid c.pending,
          λ other h. ap (pid_get other) kept.0 ∙ pid_get-pid_remove_other pid other c.pending h,
          λ h. kept.1 h,
        )

-- What an entry leaves pending: the other processes' calls.
pub on_entry-pending :
    (platform : Platform) (pid : ℕ) (process : Stopped) (c : EventCollector)
    → ((other : ℕ)
        → pid ≢ other
        → pid_get other (on_entry platform pid process c).pending ≡ pid_get other c.pending)
      × (Capped c → Capped (on_entry platform pid process c))
unfolding on_entry enter_with await Capped
on_entry-pending platform pid process c = after process.getregs
  where
    after :
        (regs : Option Regs)
        → ((other : ℕ)
            → pid ≢ other
            → pid_get other (enter_with platform pid process regs c).pending
              ≡ pid_get other c.pending)
          × (Capped c → Capped (enter_with platform pid process regs c))
    after none = (λ other h. refl, λ h. h)
    after (some regs) = (λ other h. pid_get-pid_insert_other pid other _ c.pending h, λ h. h)
