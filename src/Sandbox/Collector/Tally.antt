-- ===== src/Sandbox/Collector/Tally.antt =====
-- crates/jkr-sandbox/src/capture/mod.rs: what `push_file` implements, a count for each kind of access.
use tkr.Prelude.{
  ℕ, ◌+◌, ◌≤◌, ◌<◌, ◌≡◌, refl, Bool, true, false, ◌&&◌, Option, List, [], ◌∷◌, ◌++◌, Text, text_eq,
  text_eq_iff, any, All, All-append, length, leb, if◌then◌else◌, if_cases, Bool-cases, inl, inr,
  arith, u32,
}
use tkr.Sandbox.Trace.{FileEvent, FileOp, op_eq, same_flag, trace_event_cap}
use tkr.Sandbox.Collector.{EventCollector, same_file, bump_file, push_file, truncate, new_collector}

-- A finished access to a file.
pub record Access : Type 0 where
  pub path : Text
  pub op : FileOp
  pub allowed : Bool
  pub errno : Option ℕ

-- The accesses in the order in which they are pushed.
unfoldable pub push_files : List Access → EventCollector → EventCollector
unfolding push_file
push_files [] c = c
push_files (a ∷ accesses) c = push_files accesses (push_file a.path a.op a.allowed a.errno c)

abbrev pub same_access : Text → FileOp → Bool → Access → Bool
same_access path op allowed a = text_eq a.path path && op_eq a.op op && same_flag a.allowed allowed

-- The abstract collector: how often each path was accessed by each operation and result.
unfoldable pub tally : (Access → Bool) → List Access → ℕ
tally test [] = 0
tally test (a ∷ accesses) = if test a then tally test accesses + 1 else tally test accesses

unfoldable pub recorded : (FileEvent → Bool) → List FileEvent → ℕ
recorded test [] = 0
recorded test (e ∷ files) = if test e then e.count + recorded test files else recorded test files

op_eq_sound : (a b : FileOp) → op_eq a b ≡ true → a ≡ b
op_eq_sound FileOp.read b h = ground arith
op_eq_sound FileOp.write b h = ground arith
op_eq_sound FileOp.stat b h = ground arith
op_eq_sound FileOp.delete b h = ground arith
op_eq_sound FileOp.rename b h = ground arith

same_flag_sound : (a b : Bool) → same_flag a b ≡ true → a ≡ b
same_flag_sound a b h = ground arith

all_three : (a b c : Bool) → a && b && c ≡ true → (a ≡ true) × (b ≡ true) × (c ≡ true)
all_three a b c h = ground arith

-- An event that one access would bump is the event of the keys of that access.
same_file-same_access :
    (a : Access) (e : FileEvent) (path : Text) (op : FileOp) (allowed : Bool)
    → same_file a.path a.op a.allowed e ≡ true
    → same_file path op allowed e ≡ same_access path op allowed a
unfolding same_file
same_file-same_access a e path op allowed h =
    let parts =
      all_three (text_eq e.path a.path) (op_eq e.op a.op) (same_flag e.allowed a.allowed) h in
    let p = (text_eq_iff e.path a.path).0 parts.0 in
    let o = op_eq_sound e.op a.op parts.1 in
    let f = same_flag_sound e.allowed a.allowed parts.2 in cc

bump_file-recorded :
    (test key : FileEvent → Bool) (hit : Bool) (n : ℕ) (files : List FileEvent)
    → ((e : FileEvent) → test e ≡ true → key e ≡ hit)
    → ((e : FileEvent) (k : ℕ) → key (record e { count = k }) ≡ key e)
    → All (λ e. e.count ≤ n) files
    → n < 4294967295
    → any test files ≡ true
    → recorded key (bump_file test files)
      ≡ (if hit then recorded key files + 1 else recorded key files)
unfolding recorded bump_file
bump_file-recorded test key hit n [] same recount small h found = absurd (ground arith)
bump_file-recorded test key hit n (e ∷ files) same recount small h found =
    elim (Bool-cases (test e)) [
      | inl hits ↦
          let s = same e hits in
          let r = recount e (u32 (e.count + 1)) in ground (arith, s, r, small.0)
      | inr misses ↦
          let rest = bump_file-recorded test key hit n files same recount small.1 h in
          ground (arith, rest)
    ]

counts_weaken :
    (n : ℕ) (files : List FileEvent)
    → All (λ e. e.count ≤ n) files
    → All (λ e. e.count ≤ n + 1) files
counts_weaken n [] h = tt
counts_weaken n (e ∷ files) h = (omega (arith, h.0), counts_weaken n files h.1)

-- The events after an access: no count grows by more than one.
bump_file-small :
    (test : FileEvent → Bool) (n : ℕ) (files : List FileEvent)
    → All (λ e. e.count ≤ n) files
    → All (λ e. e.count ≤ n + 1) (bump_file test files)
unfolding bump_file
bump_file-small test n [] small = tt
bump_file-small test n (e ∷ files) small =
    let rest = bump_file-small test n files small.1 in
    if_cases (All (λ e. e.count ≤ n + 1)) (test e)
      ((record e { count = u32 (e.count + 1) }) ∷ files) (e ∷ bump_file test files)
      (λ _. (omega (arith, small.0), counts_weaken n files small.1))
      (λ _. (omega (arith, small.0), rest))

recorded-append :
    (key : FileEvent → Bool) (before after : List FileEvent)
    → recorded key (before ++ after) ≡ recorded key before + recorded key after
unfolding recorded
recorded-append key [] after = omega arith
recorded-append key (e ∷ before) after = ground (arith, recorded-append key before after)

-- The result of a push that does not cut the trace.
Pushed : (FileEvent → Bool) → Bool → ℕ → EventCollector → EventCollector → Type 0
Pushed key hit n c d =
    All (λ e. e.count ≤ n + 1) d.files
    × (d.truncated ≡ false
        → (c.truncated ≡ false)
          × (recorded key d.files
              ≡ (if hit then recorded key c.files + 1 else recorded key c.files)))

push_file-Pushed :
    (a : Access) (path : Text) (op : FileOp) (allowed : Bool) (n : ℕ) (c : EventCollector)
    → All (λ e. e.count ≤ n) c.files
    → n < 4294967295
    → Pushed
        (same_file path op allowed)
        (same_access path op allowed a)
        n
        c
        (push_file a.path a.op a.allowed a.errno c)
unfolding push_file Pushed same_file recorded
push_file-Pushed a path op allowed n c small h =
    let test = same_file a.path a.op a.allowed in
    let key = same_file path op allowed in
    let hit = same_access path op allowed a in
    let last : FileEvent = record {
      path = a.path;
      op = a.op;
      allowed = a.allowed;
      errno = a.errno;
      count = 1;
    } in
    let bumped : EventCollector = record c { files = bump_file test c.files } in
    let grown : EventCollector = record c { files = c.files ++ last ∷ [] } in
    if_cases (Pushed key hit n c) (any test c.files) bumped
      (if leb trace_event_cap (length c.files) then truncate c else grown)
      (λ found. (
        bump_file-small test n c.files small,
        λ whole. (
          whole,
          bump_file-recorded test key hit n c.files (λ e. same_file-same_access a e path op allowed)
              (λ e k. refl) small h found,
        ),
      ))
      (λ _.
        if_cases (Pushed key hit n c) (leb trace_event_cap (length c.files)) (truncate c) grown
          (λ _. (counts_weaken n c.files small, λ whole. absurd (ground (arith, whole))))
          (λ _. (
            All-append (λ e. e.count ≤ n + 1) c.files (last ∷ []) (counts_weaken n c.files small)
                (omega arith, tt),
            λ whole. (whole, ground (arith, recorded-append key c.files (last ∷ []))),
          )))

push_files-recorded :
    (path : Text) (op : FileOp) (allowed : Bool) (accesses : List Access) (n : ℕ)
    (c : EventCollector)
    → All (λ e. e.count ≤ n) c.files
    → n + length accesses < 4294967296
    → (push_files accesses c).truncated ≡ false
    → (c.truncated ≡ false)
      × (recorded (same_file path op allowed) (push_files accesses c).files
          ≡ recorded (same_file path op allowed) c.files
            + tally (same_access path op allowed) accesses)
unfolding push_files tally Pushed
push_files-recorded path op allowed [] n c small h whole = (whole, omega arith)
push_files-recorded path op allowed (a ∷ accesses) n c small h whole =
    let d = push_file a.path a.op a.allowed a.errno c in
    let pushed = push_file-Pushed a path op allowed n c small (omega (arith, h)) in
    let rest =
      push_files-recorded path op allowed accesses (n + 1) d pushed.0 (omega (arith, h)) whole in
    let first = pushed.1 rest.0 in (first.0, ground (arith, rest.1, first.1))

-- After fewer than 2 ^ 32 accesses to files from an empty collector, if the trace was not cut, the
-- count recorded for a path, an operation and a result, over all the events of that key, is the
-- number of the accesses that had them.
pub push_files-tally :
    (path : Text) (op : FileOp) (allowed : Bool) (accesses : List Access) (roots : List Text)
    → length accesses < 4294967296
    → (push_files accesses (new_collector roots)).truncated ≡ false
    → recorded (same_file path op allowed) (push_files accesses (new_collector roots)).files
      ≡ tally (same_access path op allowed) accesses
unfolding recorded
push_files-tally path op allowed accesses roots h whole =
    let refined =
      push_files-recorded path op allowed accesses 0 (new_collector roots) tt (omega (arith, h))
        whole in
    omega (arith, refined.1)
