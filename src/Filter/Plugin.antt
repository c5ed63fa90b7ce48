-- ===== src/Filter/Plugin.antt =====
-- `FilterGroup` and `FilterPlugin` of crates/jkr-filter/src/lib.rs, `CompiledRule::flush_summary` of
-- crates/jkr-filter/src/rules.rs, and the wrapper of crates/jkr-filter/src/v2.rs.
use tkr.Prelude.{
  ℕ, Bool, true, false, not, Option, none, some, List, [], ◌∷◌, ◌++◌, ◌&&◌, Text, any, codes,
  text_eq, is_whitespace, decimal, ltb, ◌==◌, if◌then◌else◌,
}
use tkr.Filter.Regex.{RegexApi}
use tkr.Filter.Rule.{Rule}
use tkr.Filter.Compiled.{FilterResult, Seen, Buckets, CompiledRule}
use tkr.Filter.Apply.{apply}
use tkr.Filter.Apply.Words.{CaseApi}
use tkr.Filter.Compile.{Result, ok, ◌>>=◌, join, compile_group}

-- `args.split_whitespace().next().unwrap_or("")`
unfoldable pub until_whitespace : Text → Text
unfolding is_whitespace
until_whitespace [] = []
until_whitespace (c ∷ cs) = if is_whitespace c then [] else c ∷ until_whitespace cs

unfoldable pub first_word : Text → Text
unfolding until_whitespace
first_word [] = []
first_word (c ∷ cs) =
    let skipped = first_word cs in if is_whitespace c then skipped else until_whitespace (c ∷ cs)

pub record FilterGroup (Re ReSet : Type 0) : Type 0 where
  pub command : Option Text
  pub subcommands : List Text
  pub rules : List (CompiledRule Re ReSet)

-- What the TOML file of a group holds.
pub record FilterDef : Type 0 where
  pub command : Option Text
  pub subcommands : List Text
  pub rules : List Rule

unfoldable pub is_empty {ℓ} : {A : Type ℓ} → List A → Bool
is_empty [] = true
is_empty (_ ∷ _) = false

unfoldable pub command_matches : Option Text → Text → Bool
command_matches none command = true
command_matches (some c) command = text_eq c command

unfoldable pub matches : {Re ReSet : Type 0} → FilterGroup Re ReSet → Text → Text → Bool
unfolding is_empty command_matches
matches group command subcommand =
    if not (command_matches group.command command)
    then false
    else if not (is_empty group.subcommands)
        && not (any (λ s. text_eq s subcommand) group.subcommands)
    then false
    else true

abbrev times : ℕ
times = 0xd7

unfoldable pub dedup_entry : Text × (Text × ℕ) → Text
dedup_entry (_, (line, count)) = if ltb 1 count then line ++ b' ' ∷ times ∷ decimal count else line

unfoldable pub dedup_entries : Seen → List Text
unfolding dedup_entry
dedup_entries [] = []
dedup_entries (e ∷ seen) = dedup_entry e ∷ dedup_entries seen

unfoldable pub bucket_entries : Buckets → Text
bucket_entries [] = []
bucket_entries ((key, (lines, overflow)) ∷ buckets) =
    let more : Text = if ltb 0 overflow then codes " (+" ++ decimal overflow ++ codes ")" else [] in
    (codes "\n  " ++ key ++ codes ": " ++ join (codes ", ") lines ++ more) ++ bucket_entries buckets

unfoldable pub flush_summary : {Re ReSet : Type 0} → CompiledRule Re ReSet → Option Text
unfolding is_empty join dedup_entries bucket_entries
flush_summary (CompiledRule.empty_result_substitute message observed_count) =
    if observed_count == 0 then some message else none
flush_summary (CompiledRule.dedup_with_count re key_capture seen) =
    if is_empty seen then none else some (join (codes "\n") (dedup_entries seen))
flush_summary (CompiledRule.group_by_capture re key cap total header buckets kept global_overflow) =
    let dropped : Text =
      if ltb 0 global_overflow
      then codes "\n  (+" ++ decimal global_overflow ++ codes " dropped)"
      else [] in
    if is_empty buckets then none else some (header ++ bucket_entries buckets ++ dropped)
flush_summary _ = none

-- A summary goes on a line of its own behind what is there.
unfoldable pub push_summary : Text → Option Text → Text
unfolding is_empty
push_summary out none = out
push_summary out (some s) =
    if is_empty s then out else if is_empty out then s else out ++ codes "\n" ++ s

unfoldable pub flush_rules : {Re ReSet : Type 0} → Text → List (CompiledRule Re ReSet) → Text
unfolding flush_summary push_summary
flush_rules out [] = out
flush_rules out (rule ∷ rules) = flush_rules (push_summary out (flush_summary rule)) rules

unfoldable pub flush_groups : {Re ReSet : Type 0} → Text → List (FilterGroup Re ReSet) → Text
unfolding flush_rules
flush_groups out [] = out
flush_groups out (group ∷ groups) = flush_groups (flush_rules out group.rules) groups

-- `FilterPlugin`: its groups.
abbrev pub FilterPlugin : Type 0 → Type 0 → Type 0
FilterPlugin Re ReSet = List (FilterGroup Re ReSet)

unfoldable pub flush : {Re ReSet : Type 0} → FilterPlugin Re ReSet → Text
unfolding flush_groups
flush groups = flush_groups [] groups

pub data FilterDecision : Type 0 where
  pass : FilterDecision
  suppress : FilterDecision
  replace : Text → FilterDecision
  annotate : Text → FilterDecision
  suppress_with_note : ℕ → FilterDecision

-- The `match` of `FilterPluginV2::on_line`.
unfoldable pub decision : FilterResult → FilterDecision
decision FilterResult.pass = FilterDecision.pass
decision FilterResult.suppress = FilterDecision.suppress
decision (FilterResult.suppress_with_note n) = FilterDecision.suppress_with_note n
decision (FilterResult.replace s) = FilterDecision.replace s
decision (FilterResult.annotate _) = FilterDecision.pass

module _ (case : CaseApi) (api : RegexApi) where
  open api use {Re, ReSet}

  -- The first rule with an opinion decides; the rules behind it do not see the line.
  unfoldable pub apply_rules :
      List (CompiledRule Re ReSet) → Text → Option FilterResult × List (CompiledRule Re ReSet)
  apply_rules [] line = (none, [])
  apply_rules (rule ∷ rules) line =
      let (opinion, rule') = apply case api rule line in
      let (later, rules') = apply_rules rules line in
      elim opinion [ some result ↦ (some result, rule' ∷ rules) | none ↦ (later, rule' ∷ rules') ]

  unfoldable pub filter_groups :
      List (FilterGroup Re ReSet)
      → Text
      → Text
      → Text
      → Option FilterResult × List (FilterGroup Re ReSet)
  unfolding apply_rules matches
  filter_groups [] line command subcommand = (none, [])
  filter_groups (group ∷ groups) line command subcommand =
      let (opinion, rules') = apply_rules group.rules line in
      let (later, groups') = filter_groups groups line command subcommand in
      if matches group command subcommand
      then (elim opinion [
        | some result ↦ (some result, record group { rules = rules' } ∷ groups)
        | none ↦ (later, record group { rules = rules' } ∷ groups')
      ])
      else (later, group ∷ groups')

  unfoldable pub result_or_pass : Option FilterResult → FilterResult
  result_or_pass none = FilterResult.pass
  result_or_pass (some result) = result

  unfoldable pub filter :
      FilterPlugin Re ReSet → Text → Text → Text → FilterResult × FilterPlugin Re ReSet
  unfolding filter_groups first_word result_or_pass
  filter groups line command args =
      let (opinion, groups') = filter_groups groups line command (first_word args) in
      (result_or_pass opinion, groups')

  -- `FilterPluginV2::on_line`
  unfoldable pub on_line :
      FilterPlugin Re ReSet → Text → Text → Text → FilterDecision × FilterPlugin Re ReSet
  unfolding filter decision
  on_line groups line command args =
      let (result, groups') = filter groups line command args in (decision result, groups')

  -- `from_toml` behind the TOML parser; `load_dir` and `load_file` append such a group.
  unfoldable pub load_def : FilterPlugin Re ReSet → FilterDef → Result (FilterPlugin Re ReSet)
  unfolding compile_group
  load_def groups def = do
    rules ← compile_group case api def.rules
    ok (
        groups
        ++ record { command = def.command; subcommands = def.subcommands; rules = rules } ∷ [])
