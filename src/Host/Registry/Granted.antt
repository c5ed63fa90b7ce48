-- ===== src/Host/Registry/Granted.antt =====
-- crates/jkr/src/host/loader.rs: which plugins are registered.
use tkr.Prelude.{
  ℕ, codes, if_cases, subst, ◌≡◌, refl, sym, ap, ◌∙◌, true, false, none, some, List, [], ◌∷◌, ◌++◌,
  Text, all, StdResult, ok, err, Bool-cases, inl, inr, arith, length,
}
use tkr.Table.{get, get-insert}
use tkr.Filter.Plugin.{is_empty}
use tkr.Host.Bus.{Error, CapSet, holds, InProcBus, list_of, register_handler, set_caps}
use tkr.Host.Registry.{
  PluginApi, Manifest, Handler, PluginRegistry, first_missing, admit, register, expose,
}

first_missing-none :
    (granted : CapSet) (required : List Text)
    → all (holds granted) required ≡ true
    → first_missing granted required ≡ none
unfolding first_missing
first_missing-none granted [] h = refl
first_missing-none granted (c ∷ required) h = ground (arith, first_missing-none granted required)

first_missing-some :
    (granted : CapSet) (required : List Text)
    → all (holds granted) required ≡ false
    → (c : Text) × ((first_missing granted required ≡ some c) × (holds granted c ≡ false))
unfolding first_missing
first_missing-some granted [] h = absurd (ground arith)
first_missing-some granted (c ∷ required) h = elim (Bool-cases (holds granted c)) [
  | inl held ↦
      let rest = first_missing-some granted required (ground (arith, held)) in
      (rest.0, (rw held (rest.1.0), rest.1.1))
  | inr missing ↦ (c, (rw missing refl, missing))
]

expose-caps :
    (api : PluginApi) (m : Manifest) (place : ℕ) (bus : InProcBus Handler (Unit {0}))
    → (expose api m place bus).caps ≡ bus.caps
unfolding expose register_handler
expose-caps api m place bus =
    if_cases (λ (b : InProcBus Handler (Unit {0})). b.caps ≡ bus.caps) (is_empty m.cli_subcommands)
      bus (register_handler m.name (codes "cli.invoke") [] (Handler.on_request place) bus)
      (λ _. refl) (λ _. refl)

module _ (api : PluginApi) where
  -- What a registration gives.
  unfoldable pub Registered :
      api.Plugin → PluginRegistry api → StdResult (PluginRegistry api) Error → Type 0
  Registered plugin r (err problem) =
      (all (holds (list_of (get (api.manifest plugin).name r.grants)))
          (api.manifest plugin).capabilities_required
        ≡ false)
      × ((c : Text) × (problem ≡ Error.capability_denied c (api.manifest plugin).name))
  Registered plugin r (ok r') =
      (all (holds (list_of (get (api.manifest plugin).name r.grants)))
          (api.manifest plugin).capabilities_required
        ≡ true)
      × (r'.entries
          ≡ r.entries
            ++ (record { name = (api.manifest plugin).name; plugin = plugin; degraded = false })
              ∷ [])
      × (get (api.manifest plugin).name r'.bus.caps
          ≡ some (list_of (get (api.manifest plugin).name r.grants)))
      × (r'.grants ≡ r.grants)

  -- A plugin is registered exactly if every capability that its manifest requires is granted under
  -- its name: then it is the last entry, under that name and not degraded, its grants are its
  -- capabilities on the bus, and the grants stay; else the registration is refused for a
  -- capability.
  pub register-Registered :
      (plugin : api.Plugin) (r : PluginRegistry api) → Registered plugin r (register api plugin r)
  unfolding Registered register admit set_caps
  register-Registered plugin r =
      let m = api.manifest plugin in
      let granted = list_of (get m.name r.grants) in
      elim (Bool-cases (all (holds granted) m.capabilities_required)) [
        | inl enough ↦
            subst (λ o. Registered plugin r (admit api o plugin r))
              (sym (first_missing-none granted m.capabilities_required enough))
              (
                enough,
                refl,
                ap (get m.name)
                      (expose-caps api m (length r.entries) (set_caps m.name granted r.bus))
                    ∙ get-insert m.name granted r.bus.caps,
                refl,
              )
        | inr short ↦
            let missing = first_missing-some granted m.capabilities_required short in
            subst (λ o. Registered plugin r (admit api o plugin r)) (sym missing.1.0)
              (short, (missing.0, refl))
      ]
