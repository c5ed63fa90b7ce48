-- ===== src/Samples/HostExamples.antt =====
-- The theorems on the host's bus and registry, on signatures and on tables at small inputs.
use tkr.Prelude.{◌≡◌, refl, Bool, true, false, some, List, [], ◌∷◌, Text, codes, StdResult, ok, err}
use tkr.Filter.Plugin.{FilterDecision}
use tkr.Recorder.{CommandCtx}
use tkr.Table.{get}
use tkr.Host.Bus.{Error, Request, InProcBus, find_handler, admitted}
use tkr.Host.Bus.Capability.{reached, entitled, admitted-entitled}
use tkr.Host.Registry.{PluginApi, Entry, PluginRegistry, register, run_filters_line, stdout_filter}
use tkr.Host.Registry.Chain.{live, AllKept, run_filters_line_lem}
use tkr.Host.Registry.Granted.{Registered, register-Registered}
use tkr.Stream.Signature.{signature_of, signature_to_regex}
use tkr.Mcp.Toon.{cells}
use tkr.Mcp.Toon.Rows.{read_cells, IsOneLine, read_cells-row}

abbrev guarded : InProcBus Text Text
guarded = record {
  handlers = ((codes "burn", codes "secret"), (codes "h", codes "cap:vault.read.secret" ∷ [])) ∷ [];
  subscribers = [];
  caps = (codes "demo", codes "cap:vault.read.secret" ∷ []) ∷ [];
}

abbrev from_demo : Request Text
from_demo = record {
  target = codes "burn";
  method = codes "secret";
  payload = [];
  caller = codes "demo";
}

admitted-entitled_example : reached (admitted guarded from_demo) ≡ some (codes "h")
unfolding entitled find_handler get
admitted-entitled_example = admitted-entitled guarded from_demo

-- Plugins that are the text they put behind a line; the empty one fails.
abbrev decide : Text → StdResult FilterDecision Error
decide [] = err (Error.plugin [])
decide (c ∷ cs) = ok (FilterDecision.annotate (c ∷ cs))

abbrev suffixes : PluginApi
suffixes = record {
  Plugin = Text;
  manifest = λ plugin. record {
    name = plugin;
    capabilities_required = stdout_filter ∷ [];
    cli_subcommands = codes "show" ∷ [];
  };
  on_load = λ plugin. (ok tt, plugin);
  on_start = λ plugin. (ok tt, plugin);
  on_command_begin = λ plugin ctx. (ok tt, plugin);
  on_line = λ plugin line ctx. (decide plugin, plugin);
  on_command_end = λ plugin ctx. (ok [], plugin);
  on_shutdown = λ plugin. (ok tt, plugin);
}

abbrev entry : Text → Bool → Entry suffixes
entry plugin degraded = record { name = plugin; plugin = plugin; degraded = degraded }

abbrev three_entries : List (Entry suffixes)
three_entries = entry (codes "!") false ∷ entry (codes "?") true ∷ entry [] false ∷ []

abbrev git_ctx : CommandCtx
git_ctx = record { command = codes "git"; args = []; line_index = 0 }

run_filters_line_lem_example :
    ((run_filters_line suffixes git_ctx three_entries (codes "a")).0
      ≡ (run_filters_line suffixes git_ctx (live suffixes git_ctx three_entries) (codes "a")).0)
    × AllKept suffixes git_ctx three_entries
        (run_filters_line suffixes git_ctx three_entries (codes "a")).1
run_filters_line_lem_example = run_filters_line_lem suffixes git_ctx three_entries (codes "a")

-- What the chain does of these three: one suffix, and the last entry marked.
run_filters_line_run :
    run_filters_line suffixes git_ctx three_entries (codes "a")
    ≡ (some (codes "a!"), entry (codes "!") false ∷ entry (codes "?") true ∷ entry [] true ∷ [])
unfolding run_filters_line
run_filters_line_run = refl

abbrev granting : PluginRegistry suffixes
granting = record {
  bus = record { handlers = []; subscribers = []; caps = [] };
  entries = [];
  grants = (codes "!", stdout_filter ∷ []) ∷ [];
}

register-Registered_example :
    Registered suffixes (codes "!") granting (register suffixes (codes "!") granting)
register-Registered_example = register-Registered suffixes (codes "!") granting

signature_of_run : signature_of (codes "[2026-04-28T21:00:00] pid 42") ≡ codes "[T] pid N"
unfolding signature_of
signature_of_run = refl

regex_of_ip : signature_to_regex (codes "IP.") ≡ codes "\\d+\\.\\d+\\.\\d+\\.\\d+\\."
unfolding signature_to_regex
regex_of_ip = refl

slash_run : codes "\\d" ≡ 92 ∷ b'd' ∷ []
slash_run = refl

read_cells-row_example :
    (read_cells (cells (codes "a,b" ∷ codes "c\\" ∷ [])) ≡ codes "a,b" ∷ codes "c\\" ∷ [])
    × IsOneLine (cells (codes "a,b" ∷ codes "c\\" ∷ []))
read_cells-row_example = read_cells-row (codes "a,b") (codes "c\\" ∷ [])
