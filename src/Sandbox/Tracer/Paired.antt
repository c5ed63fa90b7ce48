-- ===== src/Sandbox/Tracer/Paired.antt =====
-- crates/jkr-sandbox/src/capture/linux_ptrace.rs: the states that the tracer's loop reaches.
use tkr.Prelude.{
  ℕ, ◌≡◌, ◌≢◌, refl, sym, ap, subst, ◌∙◌, Bool, true, false, not, ◌⊎◌, none, List, [], ◌∷◌, ◌==◌,
  Bool-cases, inl, inr, any, if◌then◌else◌, arith,
}
use tkr.Sandbox.Policy.{SandboxPolicy}
use tkr.Sandbox.Tracee.{Platform, Stopped}
use tkr.Sandbox.Pids.{
  pid_get, pid_remove, pid_get-pid_remove_other, pid_get-pid_insert, pid_get-pid_insert_other,
}
use tkr.Sandbox.Collector.{EventCollector}
use tkr.Sandbox.Collector.Bounds.{Capped, on_exit-pending, on_entry-pending}
use tkr.Sandbox.Tracer.{WaitStatus, Tracer, start_tracer, or_entry, observe, handle}

-- A stop of the process at a call, and its end.
unfoldable pub stop_of : ℕ → WaitStatus → Bool
stop_of pid (WaitStatus.ptrace_syscall p _) = p == pid
stop_of pid _ = false

unfoldable pub end_of : ℕ → WaitStatus → Bool
end_of pid (WaitStatus.exited p _) = p == pid
end_of pid (WaitStatus.signaled p) = p == pid
end_of pid _ = false

-- Whether the process has stopped at calls an even number of times.
unfoldable pub even_stops : ℕ → List WaitStatus → Bool
unfolding stop_of
even_stops pid [] = true
even_stops pid (s ∷ reports) =
    let rest = even_stops pid reports in if stop_of pid s then not rest else rest

-- The state of the loop after the reports.
unfoldable pub run_reports : Platform → ℕ → Tracer → List WaitStatus → Tracer
unfolding handle
run_reports platform root t [] = t
run_reports platform root t (s ∷ reports) =
    run_reports platform root (handle platform root s t) reports

-- The tracer takes the process to be about to enter a call exactly if `entering` says so; then it
-- has no call pending; and the tables of events are capped.
pub record IsPaired (pid : ℕ) (entering : Bool) (t : Tracer) : Type 0 where
  pub at_entry : or_entry (pid_get pid t.states) ≡ entering
  pub settled : (entering ≡ false) ⊎ (pid_get pid t.collector.pending ≡ none)
  pub capped : Capped t.collector

abbrev turned : Bool → Bool → Bool
turned stopped entering = if stopped then not entering else entering

module _ (platform : Platform) (root pid : ℕ) where
  -- A stop of the process itself.
  own_stop-IsPaired :
      (entering : Bool) (process : Stopped) (t : Tracer)
      → IsPaired pid entering t
      → IsPaired pid (not entering) (handle platform root (WaitStatus.ptrace_syscall pid process) t)
  unfolding handle
  own_stop-IsPaired entering process t h = record {
    at_entry =
        ap or_entry (pid_get-pid_insert pid (not (or_entry (pid_get pid t.states))) t.states)
        ∙ ap not h.at_entry;
    settled = settled_by entering h.at_entry;
    capped = capped_by (or_entry (pid_get pid t.states));
  }
    where
      seen : Bool → EventCollector
      seen at_entry = observe platform at_entry pid process t.collector

      settled_by :
          (b : Bool)
          → or_entry (pid_get pid t.states) ≡ b
          → (not b ≡ false)
            ⊎ (pid_get pid
                  (observe platform
                    (or_entry (pid_get pid t.states))
                    pid
                    process
                    t.collector).pending
                ≡ none)
      settled_by true e = inl refl
      settled_by false e = inr (rw (e, observe) ((on_exit-pending pid process t.collector).0))

      capped_by : (b : Bool) → Capped (observe platform b pid process t.collector)
      capped_by true = (on_entry-pending platform pid process t.collector).1 h.capped
      capped_by false = (on_exit-pending pid process t.collector).2 h.capped

  -- A stop of another process.
  other_stop-IsPaired :
      (entering : Bool) (p : ℕ) (process : Stopped) (t : Tracer)
      → p ≢ pid
      → IsPaired pid entering t
      → IsPaired pid entering (handle platform root (WaitStatus.ptrace_syscall p process) t)
  unfolding handle
  other_stop-IsPaired entering p process t differ h = record {
    at_entry = ap or_entry (pid_get-pid_insert_other p pid _ t.states differ) ∙ h.at_entry;
    settled = elim h.settled [
      | inl e ↦ inl e
      | inr e ↦ inr ((kept (or_entry (pid_get p t.states))).0 ∙ e)
    ];
    capped = (kept (or_entry (pid_get p t.states))).1;
  }
    where
      kept :
          (b : Bool)
          → (pid_get pid (observe platform b p process t.collector).pending
              ≡ pid_get pid t.collector.pending)
            × Capped (observe platform b p process t.collector)
      kept true = (
        (on_entry-pending platform p process t.collector).0 pid differ,
        (on_entry-pending platform p process t.collector).1 h.capped,
      )
      kept false = (
        (on_exit-pending p process t.collector).1 pid differ,
        (on_exit-pending p process t.collector).2 h.capped,
      )

  -- The end of another process.
  removed-IsPaired :
      (entering : Bool) (p : ℕ) (t : Tracer)
      → (p == pid) ≡ false
      → IsPaired pid entering t
      → or_entry (pid_get pid (pid_remove p t.states)) ≡ entering
  removed-IsPaired entering p t differ h =
      ap or_entry (pid_get-pid_remove_other p pid t.states (ground (arith, differ))) ∙ h.at_entry

  handle-IsPaired :
      (entering : Bool) (s : WaitStatus) (t : Tracer)
      → end_of pid s ≡ false
      → IsPaired pid entering t
      → IsPaired pid (turned (stop_of pid s) entering) (handle platform root s t)
  unfolding handle stop_of end_of
  handle-IsPaired entering (WaitStatus.ptrace_syscall p process) t alive h =
      elim (Bool-cases (p == pid)) [
        | inl same ↦
            let e : p ≡ pid = ground (arith, same) in
            subst
              (λ b.
                IsPaired pid (turned b entering)
                  (handle platform root (WaitStatus.ptrace_syscall p process) t))
              (sym same)
              (subst
                (λ q.
                  IsPaired pid (not entering)
                    (handle platform root (WaitStatus.ptrace_syscall q process) t))
                (sym e) (own_stop-IsPaired entering process t h))
        | inr differ ↦
            subst
              (λ b.
                IsPaired pid (turned b entering)
                  (handle platform root (WaitStatus.ptrace_syscall p process) t))
              (sym differ) (other_stop-IsPaired entering p process t (ground (arith, differ)) h)
      ]
  handle-IsPaired entering (WaitStatus.ptrace_event p) t alive h = record {
    at_entry = h.at_entry;
    settled = h.settled;
    capped = h.capped;
  }
  handle-IsPaired entering (WaitStatus.exited p code) t alive h = record {
    at_entry = removed-IsPaired entering p t alive h;
    settled = h.settled;
    capped = h.capped;
  }
  handle-IsPaired entering (WaitStatus.signaled p) t alive h = record {
    at_entry = removed-IsPaired entering p t alive h;
    settled = h.settled;
    capped = h.capped;
  }
  handle-IsPaired entering (WaitStatus.stopped p sig) t alive h = record {
    at_entry = h.at_entry;
    settled = h.settled;
    capped = h.capped;
  }
  handle-IsPaired entering WaitStatus.other_status t alive h = h

  turned-turned :
      (even stopped entering : Bool)
      → turned (not even) (turned stopped entering)
        ≡ turned (not (if stopped then not even else even)) entering
  turned-turned true true true = refl
  turned-turned true true false = refl
  turned-turned true false entering = refl
  turned-turned false true true = refl
  turned-turned false true false = refl
  turned-turned false false entering = refl

  run_reports-IsPaired_from :
      (reports : List WaitStatus) (entering : Bool) (t : Tracer)
      → any (end_of pid) reports ≡ false
      → IsPaired pid entering t
      → IsPaired pid
          (turned (not (even_stops pid reports)) entering)
          (run_reports platform root t reports)
  unfolding run_reports even_stops
  run_reports-IsPaired_from [] entering t alive h = h
  run_reports-IsPaired_from (s ∷ reports) entering t alive h =
      subst (λ b. IsPaired pid b (run_reports platform root (handle platform root s t) reports))
        (turned-turned (even_stops pid reports) (stop_of pid s) entering)
        (run_reports-IsPaired_from reports (turned (stop_of pid s) entering)
          (handle platform root s t) (ground (arith, alive))
          (handle-IsPaired entering s t (ground (arith, alive)) h))

start_tracer-IsPaired :
    (pid root : ℕ) (policy : SandboxPolicy) → IsPaired pid true (start_tracer root policy)
unfolding Capped pid_get
start_tracer-IsPaired pid root policy = record {
  at_entry = ground arith;
  settled = inr refl;
  capped = (omega arith, omega arith, omega arith);
}

-- Whatever `waitpid` reports to the tracer's loop and in whatever order, for every process whose
-- end is not among the reports, whether it is known to the tracer yet or not: the tracer takes it to
-- be about to enter a call exactly if it has stopped at calls an even number of times; and then it
-- has no call pending. Each of the three tables of events has at most 512 entries.
pub run_reports-IsPaired :
    (platform : Platform) (root pid : ℕ) (policy : SandboxPolicy) (reports : List WaitStatus)
    → any (end_of pid) reports ≡ false
    → IsPaired pid
        (even_stops pid reports)
        (run_reports platform root (start_tracer root policy) reports)
run_reports-IsPaired platform root pid policy reports alive =
    subst (λ b. IsPaired pid b (run_reports platform root (start_tracer root policy) reports))
      (turned_true (even_stops pid reports))
      (run_reports-IsPaired_from platform root pid reports true (start_tracer root policy) alive
        (start_tracer-IsPaired pid root policy))
  where
    turned_true : (even : Bool) → turned (not even) true ≡ even
    turned_true true = refl
    turned_true false = refl
