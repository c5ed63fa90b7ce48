-- ===== src/Host/Registry.antt =====
-- crates/jkr/src/host/loader.rs: the registry of plugins and the chain of filters. The plugins behind
-- their trait are a parameter; what is printed to stderr is left out.
pub mod Granted
pub mod Chain
use tkr.Prelude.{
  Bool, true, false, not, ◌&&◌, Option, none, some, List, [], ◌∷◌, ◌++◌, Text, codes, text_eq, any,
  length, ends_with, ℕ, if◌then◌else◌, StdResult, ok, err,
}
use tkr.Table.{Table, get, insert}
use tkr.Filter.Plugin.{FilterDecision, is_empty}
use tkr.Recorder.{CommandCtx}
use tkr.Host.Bus.{Error, CapSet, holds, Request, InProcBus, list_of, register_handler, set_caps}

-- What the registry reads of a plugin's manifest.
pub record Manifest : Type 0 where
  pub name : Text
  pub capabilities_required : List Text
  pub cli_subcommands : List Text

-- The trait `Plugin`: a method may change the plugin. The host that `on_load` hands over is left out, so
-- that a method changes its plugin only.
pub record PluginApi : Type 1 where
  pub Plugin : Type 0
  pub manifest : Plugin → Manifest
  pub on_load : Plugin → StdResult (Unit {0}) Error × Plugin
  pub on_start : Plugin → StdResult (Unit {0}) Error × Plugin
  pub on_command_begin : Plugin → CommandCtx → StdResult (Unit {0}) Error × Plugin
  pub on_line : Plugin → Text → CommandCtx → StdResult FilterDecision Error × Plugin
  pub on_command_end : Plugin → CommandCtx → StdResult Text Error × Plugin
  pub on_shutdown : Plugin → StdResult (Unit {0}) Error × Plugin

-- A handler of the bus: the request is passed on to the plugin with this place in the registry.
pub data Handler : Type 0 where
  on_request : ℕ → Handler

abbrev pub stdout_filter : Text
stdout_filter = codes "cap:stdout.filter"

-- The first capability that is not granted.
unfoldable pub first_missing : CapSet → List Text → Option Text
unfolding holds
first_missing granted [] = none
first_missing granted (c ∷ required) =
    let rest = first_missing granted required in if holds granted c then rest else some c

module _ (api : PluginApi) where
  pub record Entry : Type 0 where
    pub name : Text
    pub plugin : api.Plugin
    pub degraded : Bool

  pub record PluginRegistry : Type 0 where
    pub bus : InProcBus Handler (Unit {0})
    pub entries : List Entry
    pub grants : Table CapSet

  unfoldable pub grant : Text → CapSet → PluginRegistry → PluginRegistry
  unfolding insert
  grant name caps r = record r { grants = insert name caps r.grants }

  -- A plugin with subcommands of the command line answers on the bus.
  unfoldable pub expose : Manifest → ℕ → InProcBus Handler (Unit {0}) → InProcBus Handler (Unit {0})
  unfolding register_handler is_empty
  expose m place bus =
      if is_empty m.cli_subcommands
      then bus
      else register_handler m.name (codes "cli.invoke") [] (Handler.on_request place) bus

  unfoldable pub admit : Option Text → api.Plugin → PluginRegistry → StdResult PluginRegistry Error
  unfolding get set_caps expose
  admit (some missing) plugin r = err (Error.capability_denied missing (api.manifest plugin).name)
  admit none plugin r =
      let m = api.manifest plugin in
      ok (record r {
        bus = expose m (length r.entries) (set_caps m.name (list_of (get m.name r.grants)) r.bus);
        entries = r.entries ++ (record { name = m.name; plugin = plugin; degraded = false }) ∷ [];
      })

  unfoldable pub register : api.Plugin → PluginRegistry → StdResult PluginRegistry Error
  unfolding admit first_missing get
  register plugin r =
      let m = api.manifest plugin in
      admit (first_missing (list_of (get m.name r.grants)) m.capabilities_required) plugin r

  -- An error marks the entry.
  abbrev pub mark_if_err {ℓ} : {T : Type ℓ} → StdResult T Error × api.Plugin → Entry → Entry
  mark_if_err (ok _, plugin) e = record e { plugin = plugin }
  mark_if_err (err _, plugin) e = record e { plugin = plugin; degraded = true }

  abbrev pub load_with :
      StdResult (Unit {0}) Error × api.Plugin
      → Entry
      → StdResult (List Entry) Text
      → StdResult (List Entry) Text
  load_with (err problem, plugin) e later = err e.name
  load_with (ok _, plugin) e (err name) = err name
  load_with (ok _, plugin) e (ok entries) = ok ((record e { plugin = plugin }) ∷ entries)

  -- The name of the first plugin that fails ends the loading.
  unfoldable pub load_entries : List Entry → StdResult (List Entry) Text
  load_entries [] = ok []
  load_entries (e ∷ entries) = load_with (api.on_load e.plugin) e (load_entries entries)

  unfoldable pub start_entries : List Entry → List Entry
  start_entries [] = []
  start_entries (e ∷ entries) = mark_if_err (api.on_start e.plugin) e ∷ start_entries entries

  abbrev pub ignore_err : StdResult (Unit {0}) Error × api.Plugin → Entry → Entry
  ignore_err (_, plugin) e = record e { plugin = plugin }

  unfoldable pub shutdown_entries : List Entry → List Entry
  shutdown_entries [] = []
  shutdown_entries (e ∷ entries) =
      ignore_err (api.on_shutdown e.plugin) e ∷ shutdown_entries entries

  unfoldable pub is_degraded : Text → List Entry → Bool
  is_degraded name [] = false
  is_degraded name (e ∷ entries) =
      let rest = is_degraded name entries in if text_eq e.name name then e.degraded else rest

  unfoldable pub is_filter : Entry → Bool
  is_filter e = any (λ c. text_eq c stdout_filter) (api.manifest e.plugin).capabilities_required

  unfoldable pub filters_command_begin : CommandCtx → List Entry → List Entry
  unfolding is_filter
  filters_command_begin ctx [] = []
  filters_command_begin ctx (e ∷ entries) =
      let rest = filters_command_begin ctx entries in
      if is_filter e then mark_if_err (api.on_command_begin e.plugin ctx) e ∷ rest else e ∷ rest

  -- What a decision makes of the line; a suppressed line goes no further.
  unfoldable pub line_after : Text → StdResult FilterDecision Error → Option Text
  line_after line (ok FilterDecision.pass) = some line
  line_after line (ok FilterDecision.suppress) = none
  line_after line (ok (FilterDecision.suppress_with_note _)) = none
  line_after line (ok (FilterDecision.replace s)) = some s
  line_after line (ok (FilterDecision.annotate s)) = some (line ++ s)
  line_after line (err _) = some line

  abbrev pub passed_on :
      Option Text
      → Entry
      → List Entry
      → (Text → Option Text × List Entry)
      → Option Text × List Entry
  passed_on none e entries more = (none, e ∷ entries)
  passed_on (some line) e entries more = let (result, rest) = more line in (result, e ∷ rest)

  abbrev pub filter_with :
      StdResult FilterDecision Error × api.Plugin
      → Entry
      → List Entry
      → Text
      → (Text → Option Text × List Entry)
      → Option Text × List Entry
  filter_with (decision, plugin) e entries line more =
      passed_on (line_after line decision) (mark_if_err (decision, plugin) e) entries more

  unfoldable pub run_filters_line : CommandCtx → List Entry → Text → Option Text × List Entry
  unfolding is_filter line_after
  run_filters_line ctx [] line = (some line, [])
  run_filters_line ctx (e ∷ entries) line =
      let (result, rest) = run_filters_line ctx entries line in
      if is_filter e && not e.degraded
      then filter_with (api.on_line e.plugin line ctx) e entries line
          (λ line'. run_filters_line ctx entries line')
      else (result, e ∷ rest)

  -- A summary ends its line.
  unfoldable pub summary_of : StdResult Text Error → Text
  unfolding is_empty ends_with
  summary_of (err _) = []
  summary_of (ok s) = if is_empty s then [] else if ends_with s (10 ∷ []) then s else s ++ 10 ∷ []

  abbrev pub end_with :
      StdResult Text Error × api.Plugin → Entry → Text × List Entry → Text × List Entry
  end_with (s, plugin) e (summary, entries) =
      (summary_of s ++ summary, mark_if_err (s, plugin) e ∷ entries)

  unfoldable pub filters_command_end : CommandCtx → List Entry → Text × List Entry
  unfolding is_filter summary_of
  filters_command_end ctx [] = ([], [])
  filters_command_end ctx (e ∷ entries) =
      let (summary, rest) = filters_command_end ctx entries in
      if is_filter e
      then end_with (api.on_command_end e.plugin ctx) e (summary, rest)
      else (summary, e ∷ rest)
