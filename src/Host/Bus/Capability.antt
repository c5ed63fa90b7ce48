-- ===== src/Host/Bus/Capability.antt =====
-- crates/jkr/src/host/bus.rs: who reaches a handler.
use tkr.Prelude.{
  ◌≡◌, refl, Option, none, some, List, [], ◌∷◌, Text, all, StdResult, ok, err, if◌then◌else◌,
  Bool-cases, inl, inr,
}
use tkr.Table.{get}
use tkr.Host.Bus.{
  Error, CapSet, Request, InProcBus, find_handler, caller_holds, check_caps, granted, route,
  admitted,
}

-- The handler that is registered for the request, if the caller holds all that it requires.
unfoldable pub entitled :
    {Handler : Type 0} → Option (Handler × List Text) → Option CapSet → Option Handler
unfolding caller_holds
entitled none caps = none
entitled (some (handler, required)) caps =
    if all (λ cap. caller_holds caps cap) required then some handler else none

abbrev pub reached : {Handler : Type 0} → StdResult Handler Error → Option Handler
reached (ok handler) = some handler
reached (err _) = none

check_caps-all :
    {Handler : Type 0} (caller : Text) (caps : Option CapSet) (required : List Text)
    (handler : Handler)
    → reached (granted (check_caps caller caps required) handler)
      ≡ (if all (λ needed. caller_holds caps needed) required then some handler else none)
unfolding check_caps
check_caps-all caller caps [] handler = refl
check_caps-all caller caps (needed ∷ required) handler =
    elim (Bool-cases (caller_holds caps needed)) [
      | inl held ↦ rw held (check_caps-all caller caps required handler)
      | inr missing ↦ rw missing refl
    ]

route-entitled :
    {Handler Value : Type 0} (req : Request Value) (found : Option (Handler × List Text))
    (caps : Option CapSet)
    → reached (route req found caps) ≡ entitled found caps
unfolding route entitled
route-entitled req none caps = refl
route-entitled req (some (handler, required)) caps = check_caps-all req.caller caps required handler

-- A request reaches a handler exactly if one is registered for its target and method and its
-- caller has a set of capabilities that holds each one required there, or none is required; and
-- then it is that handler.
pub admitted-entitled :
    {Handler Subscriber Value : Type 0} (bus : InProcBus Handler Subscriber) (req : Request Value)
    → reached (admitted bus req)
      ≡ entitled (find_handler (req.target, req.method) bus.handlers) (get req.caller bus.caps)
unfolding admitted
admitted-entitled bus req =
    route-entitled req (find_handler (req.target, req.method) bus.handlers)
      (get req.caller bus.caps)
