-- ===== src/Recorder/Storage.antt =====
-- crates/jkr-session-recorder/src/storage.rs over the files of the vault: the events and the metadata of sessions.
-- `serde_json` and `from_utf8` are the parameters EventApi and MetaApi. A nonce and the time are arguments.
use tkr.Prelude.{
  ℕ, Option, none, some, List, [], ◌∷◌, ◌++◌, Text, codes, leb, if◌then◌else◌, StdResult, ok, err,
  ◌==◌, ◌&&◌, starts_with, ends_with, drop, length,
}
use tkr.Lines.{nonblank_lines}
use tkr.Mesh.Bytes.{Bytes}
use tkr.Audit.{JsonApi}
use tkr.Vault.Codec.{CodecApi}
use tkr.Vault.{HostVault}
use tkr.Recorder.{Event}
use tkr.Vault.Spaces.{FsImpl, FsError, fs_read, fs_write, fs_list}

pub record EventApi : Type 0 where
  pub event_to_string : Event → Option Bytes
  pub event_from_str : Text → Option Event
  pub from_utf8 : Bytes → Option Text

pub data StorageError : Type 0 where
  serialise : StorageError
  utf8 meta_parse : StorageError
  fs_error : FsError → StorageError

unfoldable pub events_path : Text → Text
events_path session_id = codes "sessions/" ++ session_id ++ codes "/events.jsonl"

-- A file that has no line feed at its end gets one.
unfoldable pub ended : Bytes → Bytes
ended [] = []
ended (c ∷ []) = if c == 10 then c ∷ [] else c ∷ 10 ∷ []
ended (c ∷ d ∷ cs) = c ∷ ended (d ∷ cs)

-- Whatever the error of the read, the file counts as empty.
abbrev pub content_of : StdResult Bytes FsError → Bytes
content_of (err problem) = []
content_of (ok content) = content

-- `sort_by_key` is stable.
unfoldable pub insert_event : Event → List Event → List Event
insert_event e [] = e ∷ []
insert_event e (f ∷ events) =
    let rest = insert_event e events in if leb e.seq f.seq then e ∷ f ∷ events else f ∷ rest

unfoldable pub sort_by_seq : List Event → List Event
unfolding insert_event
sort_by_seq [] = []
sort_by_seq (e ∷ events) = insert_event e (sort_by_seq events)

abbrev pub fs_result :
    StdResult (Unit {0}) FsError × HostVault → StdResult (Unit {0}) StorageError × HostVault
fs_result (err problem, vault) = (err (StorageError.fs_error problem), vault)
fs_result (ok done, vault) = (ok done, vault)

module _ (events : EventApi) (api : CodecApi) (json : JsonApi) where
  -- A line that does not parse is passed over.
  unfoldable pub parsed_events : List Text → List Event
  parsed_events [] = []
  parsed_events (line ∷ lines) =
      let rest = parsed_events lines in
      elim (events.event_from_str line) [ none ↦ rest | some event ↦ event ∷ rest ]

  abbrev pub append_line :
      FsImpl
      → Text
      → Bytes
      → ℕ
      → Option Bytes
      → StdResult Bytes FsError × HostVault
      → StdResult (Unit {0}) StorageError × HostVault
  append_line fs path nonce ts none (found, vault) = (err StorageError.serialise, vault)
  append_line fs path nonce ts (some line) (found, vault) =
      fs_result
        (fs_write api json fs path (ended (content_of found) ++ line ++ 10 ∷ []) nonce ts vault)

  unfoldable pub append_event :
      FsImpl → Event → Bytes → ℕ → HostVault → StdResult (Unit {0}) StorageError × HostVault
  unfolding fs_read fs_write events_path ended
  append_event fs event nonce ts vault =
      append_line fs (events_path event.session_id) nonce ts (events.event_to_string event)
        (fs_read api json fs (events_path event.session_id) ts vault)

  abbrev pub events_in : Option Text → StdResult (List Event) StorageError
  events_in none = err StorageError.utf8
  events_in (some s) = ok (sort_by_seq (parsed_events (nonblank_lines s)))

  abbrev pub events_found :
      StdResult Bytes FsError × HostVault → StdResult (List Event) StorageError × HostVault
  events_found (err problem, vault) = (ok [], vault)
  events_found (ok content, vault) = (events_in (events.from_utf8 content), vault)

  unfoldable pub read_events :
      FsImpl → Text → ℕ → HostVault → StdResult (List Event) StorageError × HostVault
  unfolding fs_read events_path sort_by_seq parsed_events nonblank_lines
  read_events fs session_id ts vault =
      events_found (fs_read api json fs (events_path session_id) ts vault)

pub record SessionMeta : Type 0 where
  pub session_id : Text
  pub started_at : Text
  pub ended_at : Option Text
  pub agent : Text
  pub project_root : Option Text
  pub jkr_version : Text

pub record MetaApi : Type 0 where
  pub meta_to_vec : SessionMeta → Option Bytes
  pub meta_from_slice : Bytes → Option SessionMeta

unfoldable pub meta_path : Text → Text
meta_path session_id = codes "sessions/" ++ session_id ++ codes "/meta.json"

-- `e.strip_prefix("sessions/")`, the part up to the next slash, and the test of the end.
unfoldable pub upto_slash : Text → Text
upto_slash [] = []
upto_slash (c ∷ cs) = let rest = upto_slash cs in if c == b'/' then [] else c ∷ rest

unfoldable pub session_ids : List Text → List Text
unfolding starts_with ends_with upto_slash
session_ids [] = []
session_ids (e ∷ entries) =
    let rest = session_ids entries in
    let name = drop (length (codes "sessions/")) e in
    if starts_with e (codes "sessions/") && ends_with name (codes "/meta.json")
    then upto_slash name ∷ rest
    else rest

unfoldable pub list_sessions : FsImpl → HostVault → List Text
unfolding fs_list session_ids
list_sessions fs vault = session_ids (fs_list fs (codes "sessions/") vault)

module _ (metas : MetaApi) (api : CodecApi) (json : JsonApi) where
  abbrev pub put_meta :
      FsImpl
      → Text
      → Bytes
      → ℕ
      → Option Bytes
      → HostVault
      → StdResult (Unit {0}) StorageError × HostVault
  put_meta fs path nonce ts none vault = (err StorageError.serialise, vault)
  put_meta fs path nonce ts (some content) vault =
      fs_result (fs_write api json fs path content nonce ts vault)

  unfoldable pub write_meta :
      FsImpl → SessionMeta → Bytes → ℕ → HostVault → StdResult (Unit {0}) StorageError × HostVault
  unfolding fs_write meta_path
  write_meta fs meta nonce ts vault =
      put_meta fs (meta_path meta.session_id) nonce ts (metas.meta_to_vec meta) vault

  abbrev pub meta_in : Option SessionMeta → StdResult (Option SessionMeta) StorageError
  meta_in none = err StorageError.meta_parse
  meta_in (some meta) = ok (some meta)

  -- Whatever the error of the read, there is no meta.
  abbrev pub meta_found :
      StdResult Bytes FsError × HostVault → StdResult (Option SessionMeta) StorageError × HostVault
  meta_found (err problem, vault) = (ok none, vault)
  meta_found (ok content, vault) = (meta_in (metas.meta_from_slice content), vault)

  unfoldable pub read_meta :
      FsImpl → Text → ℕ → HostVault → StdResult (Option SessionMeta) StorageError × HostVault
  unfolding fs_read meta_path
  read_meta fs session_id ts vault =
      meta_found (fs_read api json fs (meta_path session_id) ts vault)
