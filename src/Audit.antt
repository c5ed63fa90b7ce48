-- ===== src/Audit.antt =====
-- crates/jkr/src/host/vault/audit.rs: the audit log, a file of JSON lines in which each entry carries
-- the hash of the one before it, and a tip file with the last hash and the number of entries.
-- `serde_json` and `sha2` are a parameter; a file is its text, or none if it is not there, and its
-- other I/O errors are left out.
pub mod Chain
pub mod Verified
pub mod Torn
use tkr.Prelude.{
  ℕ, suc, ◌+◌, Bool, true, false, not, ◌&&◌, ◌||◌, Option, none, some, List, [], ◌∷◌, ◌++◌, Text,
  codes, text_eq, is_blank, ltb, ◌==◌, if◌then◌else◌, u64,
}
use tkr.Mesh.Bytes.{Bytes, as_bytes}
use tkr.Lines.{nonblank_lines}

pub record AuditEvent : Type 0 where
  pub actor : Text
  pub op : Text
  pub key : Text
  pub ts : ℕ

pub record Entry : Type 0 where
  pub prev_hash : Text
  pub event : AuditEvent
  pub hash : Text

pub record Tip : Type 0 where
  pub hash : Text
  pub n : ℕ

pub record JsonApi : Type 0 where
  -- `serde_json::to_string` and `from_str` of an entry, `to_vec` of an event
  pub print_entry : Entry → Text
  pub parse_entry : Text → Option Entry
  pub event_bytes : AuditEvent → Bytes
  -- `hex::encode` of the SHA-256 digest
  pub sha256_hex : Bytes → Text

-- The log's file, its tip file, and the last hash and the number of entries in memory.
pub record AuditLog : Type 0 where
  pub file : Option Text
  pub tip : Option Tip
  pub last_hash : Text
  pub entry_count : ℕ

pub data OpenError : Type 0 where
  parse_error tip_missing tip_mismatch : OpenError

pub data Opened : Type 0 where
  opened : AuditLog → Opened
  refused : OpenError → Opened

-- A file that is not there counts as empty.
unfoldable pub text_of : Option Text → Text
text_of none = []
text_of (some s) = s

module _ (api : JsonApi) where
  -- The loop of `compute_last_hash`; only the last line may fail to parse.
  unfoldable pub scan_lines : Text → ℕ → List Text → Option (Text × ℕ)
  scan_lines last n [] = some (last, n)
  scan_lines last n (line ∷ lines) = elim (api.parse_entry line) [
    | some entry ↦ scan_lines entry.hash (u64 (n + 1)) lines
    | none ↦ elim lines [ [] ↦ some (last, n) | _ ∷ _ ↦ none ]
  ]

  unfoldable pub compute_last_hash : Option Text → Option (Text × ℕ)
  unfolding scan_lines nonblank_lines text_of
  compute_last_hash file = scan_lines [] 0 (nonblank_lines (text_of file))

  unfoldable pub tip_agrees : Tip → Text → ℕ → Bool
  tip_agrees tip last n = text_eq tip.hash last && tip.n == n

  abbrev pub open_with : Option Text → Option Tip → Option (Text × ℕ) → Opened
  open_with file tip none = Opened.refused OpenError.parse_error
  open_with file none (some (last, n)) =
      let log : AuditLog = record { file = file; tip = none; last_hash = last; entry_count = n } in
      if ltb 0 n then Opened.refused OpenError.tip_missing else Opened.opened log
  open_with file (some tip) (some (last, n)) =
      let log : AuditLog = record {
        file = file;
        tip = some tip;
        last_hash = last;
        entry_count = n;
      } in
      if ltb 0 n && not (tip_agrees tip last n)
      then Opened.refused OpenError.tip_mismatch
      else Opened.opened log

  -- `AuditLog::open`
  unfoldable pub open_log : Option Text → Option Tip → Opened
  unfolding compute_last_hash
  open_log file tip = open_with file tip (compute_last_hash file)

  unfoldable pub entry_hash : Text → AuditEvent → Text
  unfolding as_bytes
  entry_hash prev event = api.sha256_hex (as_bytes prev ++ api.event_bytes event)

  unfoldable pub next_entry : Text → AuditEvent → Entry
  unfolding entry_hash
  next_entry prev event = record { prev_hash = prev; event = event; hash = entry_hash prev event }

  unfoldable pub append : AuditEvent → AuditLog → AuditLog
  unfolding next_entry text_of
  append event log =
      let entry = next_entry log.last_hash event in
      let new_n = u64 (log.entry_count + 1) in
      record {
        file = some (text_of log.file ++ api.print_entry entry ++ codes "\n");
        tip = some (record { hash = entry.hash; n = new_n });
        last_hash = entry.hash;
        entry_count = new_n;
      }

  -- The loop of `verify`, `none` where it returns false; `prev` and `last_hash` are always the same.
  unfoldable pub check_lines : Text → ℕ → List Text → Option (Text × ℕ)
  unfolding entry_hash
  check_lines prev n [] = some (prev, n)
  check_lines prev n (line ∷ lines) = elim (api.parse_entry line) [
    | none ↦ none
    | some entry ↦
        let rest = check_lines entry.hash (u64 (n + 1)) lines in
        if text_eq entry.prev_hash prev
          && text_eq (entry_hash entry.prev_hash entry.event) entry.hash
        then rest
        else none
  ]

  unfoldable pub check_tip : Option Tip → Option (Text × ℕ) → Bool
  unfolding tip_agrees
  check_tip tip none = false
  check_tip none (some (last, n)) = not (ltb 0 n)
  check_tip (some tip) (some (last, n)) = tip_agrees tip last n

  unfoldable pub verify : AuditLog → Bool
  unfolding check_lines check_tip nonblank_lines
  verify log = elim log.file [
    | none ↦ elim log.tip [ none ↦ true | some _ ↦ false ]
    | some s ↦ check_tip log.tip (check_lines [] 0 (nonblank_lines s))
  ]
