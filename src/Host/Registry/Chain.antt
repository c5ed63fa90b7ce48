-- ===== src/Host/Registry/Chain.antt =====
-- crates/jkr/src/host/loader.rs: which plugins a line of output goes through.
use tkr.Prelude.{
  ◌≡◌, refl, true, false, not, ◌&&◌, Option, none, some, List, [], ◌∷◌, Text, StdResult, ok, err,
  if◌then◌else◌, Bool-cases, inl, inr, arith,
}
use tkr.Filter.Plugin.{FilterDecision}
use tkr.Recorder.{CommandCtx}
use tkr.Host.Bus.{Error}
use tkr.Host.Registry.{
  PluginApi, Entry, is_filter, line_after, mark_if_err, passed_on, run_filters_line,
}

module _ (api : PluginApi) (ctx : CommandCtx) where
  -- The filters that are not degraded.
  unfoldable pub live : List (Entry api) → List (Entry api)
  live [] = []
  live (e ∷ entries) = if is_filter api e && not e.degraded then e ∷ live entries else live entries

  passed_on-live :
      (o : Option Text) (e : Entry api) (entries : List (Entry api))
      → ((line : Text)
          → (run_filters_line api ctx entries line).0
            ≡ (run_filters_line api ctx (live entries) line).0)
      → (passed_on api o e entries (λ l. run_filters_line api ctx entries l)).0
        ≡ (passed_on api o e (live entries) (λ l. run_filters_line api ctx (live entries) l)).0
  passed_on-live none e entries h = refl
  passed_on-live (some line) e entries h = h line

  -- The entries that are passed over do not matter to the line.
  run_filters_line-live :
      (entries : List (Entry api)) (line : Text)
      → (run_filters_line api ctx entries line).0 ≡ (run_filters_line api ctx (live entries) line).0
  unfolding live run_filters_line
  run_filters_line-live [] line = refl
  run_filters_line-live (e ∷ entries) line = elim (Bool-cases (is_filter api e && not e.degraded)) [
    | inl used ↦
        rw (used, used)
          (passed_on-live (line_after api line (api.on_line e.plugin line ctx).0)
            (mark_if_err api (api.on_line e.plugin line ctx) e) entries
            (run_filters_line-live entries))
    | inr unused ↦ rw unused (run_filters_line-live entries line)
  ]

  -- An entry behind a line: it keeps its name, it is untouched unless it is a filter that is not
  -- degraded, and it stays degraded.
  unfoldable pub Kept : Entry api → Entry api → Type 0
  Kept e e' =
      (e'.name ≡ e.name)
      × ((is_filter api e && not e.degraded) ≡ false → e' ≡ e)
      × (e.degraded ≡ true → e'.degraded ≡ true)

  unfoldable pub AllKept : List (Entry api) → List (Entry api) → Type 0
  unfolding Kept
  AllKept [] [] = Unit
  AllKept (e ∷ entries) (e' ∷ entries') = Kept e e' × AllKept entries entries'
  AllKept _ _ = ⊥

  Kept-same : (e : Entry api) → Kept e e
  unfolding Kept
  Kept-same e = (refl, λ _. refl, λ h. h)

  AllKept-same : (entries : List (Entry api)) → AllKept entries entries
  unfolding AllKept
  AllKept-same [] = tt
  AllKept-same (e ∷ entries) = (Kept-same e, AllKept-same entries)

  mark_if_err-Kept :
      (e : Entry api) (outcome : StdResult FilterDecision Error × api.Plugin)
      → (is_filter api e && not e.degraded) ≡ true
      → Kept e (mark_if_err api outcome e)
  unfolding Kept
  mark_if_err-Kept e (ok decision, plugin) used =
      (refl, λ h. absurd (ground (arith, used, h)), λ h. h)
  mark_if_err-Kept e (err problem, plugin) used =
      (refl, λ h. absurd (ground (arith, used, h)), λ h. refl)

  passed_on-AllKept :
      (o : Option Text) (e e' : Entry api) (entries : List (Entry api))
      (more : Text → Option Text × List (Entry api))
      → Kept e e'
      → ((line : Text) → AllKept entries (more line).1)
      → AllKept (e ∷ entries) (passed_on api o e' entries more).1
  unfolding AllKept
  passed_on-AllKept none e e' entries more h rest = (h, AllKept-same entries)
  passed_on-AllKept (some line) e e' entries more h rest = (h, rest line)

  run_filters_line-AllKept :
      (entries : List (Entry api)) (line : Text)
      → AllKept entries (run_filters_line api ctx entries line).1
  unfolding AllKept run_filters_line
  run_filters_line-AllKept [] line = tt
  run_filters_line-AllKept (e ∷ entries) line =
      elim (Bool-cases (is_filter api e && not e.degraded)) [
        | inl used ↦ rw used (
            passed_on-AllKept (line_after api line (api.on_line e.plugin line ctx).0) e
              (mark_if_err api (api.on_line e.plugin line ctx) e) entries
              (λ l. run_filters_line api ctx entries l)
              (mark_if_err-Kept e (api.on_line e.plugin line ctx) used)
              (λ l. run_filters_line-AllKept entries l))
        | inr unused ↦ rw unused (Kept-same e, run_filters_line-AllKept entries line)
      ]

  -- Whatever the plugins and the line: the line that comes out of the chain of plugins is the one
  -- that comes out of the filters in it that are not degraded, and every entry keeps its name and
  -- stays degraded if it was; only filters that were not degraded are changed.
  pub run_filters_line_lem :
      (entries : List (Entry api)) (line : Text)
      → ((run_filters_line api ctx entries line).0
          ≡ (run_filters_line api ctx (live entries) line).0)
        × AllKept entries (run_filters_line api ctx entries line).1
  run_filters_line_lem entries line =
      (run_filters_line-live entries line, run_filters_line-AllKept entries line)
