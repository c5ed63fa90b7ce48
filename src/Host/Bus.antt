-- ===== src/Host/Bus.antt =====
-- crates/jkr-api/src/capability.rs, error.rs and bus.rs, and crates/jkr/src/host/bus.rs. A
-- `serde_json::Value` is a parameter, and so are the handlers and subscribers, which act on a state.
pub mod Capability
use tkr.Prelude.{
  Bool, true, false, ◌&&◌, Option, none, some, List, [], ◌∷◌, ◌++◌, Text, codes, text_eq, any,
  if◌then◌else◌, StdResult, ok, err,
}
use tkr.Table.{Table, get, insert}

pub data Error : Type 0 where
  unknown_method : Text → Error
  -- the capability and the plugin
  capability_denied : Text → Text → Error
  sealed : Error
  schema_mismatch : Text → Text → Text → Error
  vault plugin : Text → Error

-- `CapSet`, a set of names.
abbrev pub CapSet : Type 0
CapSet = List Text

unfoldable pub holds : CapSet → Text → Bool
holds caps cap = any (λ c. text_eq c cap) caps

-- `CapSet::grant`
unfoldable pub grant_cap : Text → CapSet → CapSet
unfolding holds
grant_cap cap caps = if holds caps cap then caps else caps ++ cap ∷ []

-- `CapSet::require`
unfoldable pub require : CapSet → Text → Text → StdResult (Unit {0}) Error
unfolding holds
require caps cap name = if holds caps cap then ok tt else err (Error.capability_denied cap name)

pub record Request (Value : Type 0) : Type 0 where
  pub target : Text
  pub method : Text
  pub payload : Value
  pub caller : Text

pub record Event (Value : Type 0) : Type 0 where
  pub topic : Text
  pub payload : Value
  pub emitter : Text

-- `InProcBus`: the handlers of a target's method with the capabilities that a caller needs, the
-- subscribers of a topic in the order in which they came, and the capabilities of each caller.
pub record InProcBus (Handler Subscriber : Type 0) : Type 0 where
  pub handlers : List ((Text × Text) × (Handler × List Text))
  pub subscribers : Table (List (Text × Subscriber))
  pub caps : Table CapSet

abbrev pub same_key : Text × Text → Text × Text → Bool
same_key (target, method) (t, m) = text_eq target t && text_eq method m

abbrev pub list_of {ℓ} : {A : Type ℓ} → Option (List A) → List A
list_of none = []
list_of (some xs) = xs

-- A caller without a set of capabilities holds none.
unfoldable pub caller_holds : Option CapSet → Text → Bool
unfolding holds
caller_holds none needed = false
caller_holds (some caps) needed = holds caps needed

unfoldable pub check_caps : Text → Option CapSet → List Text → StdResult (Unit {0}) Error
unfolding caller_holds
check_caps caller caps [] = ok tt
check_caps caller caps (needed ∷ required) =
    let rest = check_caps caller caps required in
    if caller_holds caps needed then rest else err (Error.capability_denied needed caller)

module _ {Handler : Type 0} where
  unfoldable pub find_handler :
      Text × Text → List ((Text × Text) × (Handler × List Text)) → Option (Handler × List Text)
  find_handler key [] = none
  find_handler key ((k, h) ∷ handlers) =
      let rest = find_handler key handlers in if same_key k key then some h else rest

  unfoldable pub put_handler :
      Text × Text
      → Handler × List Text
      → List ((Text × Text) × (Handler × List Text))
      → List ((Text × Text) × (Handler × List Text))
  put_handler key h [] = (key, h) ∷ []
  put_handler key h ((k, old) ∷ handlers) =
      let rest = put_handler key h handlers in
      if same_key k key then (k, h) ∷ handlers else (k, old) ∷ rest

  abbrev pub granted : StdResult (Unit {0}) Error → Handler → StdResult Handler Error
  granted (err problem) handler = err problem
  granted (ok _) handler = ok handler

  -- The handler that a request reaches.
  unfoldable pub route :
      {Value : Type 0}
      → Request Value
      → Option (Handler × List Text)
      → Option CapSet
      → StdResult Handler Error
  unfolding check_caps
  route req none caps = err (Error.unknown_method (req.target ++ codes "::" ++ req.method))
  route req (some (handler, required)) caps = granted (check_caps req.caller caps required) handler

module _ {Handler Subscriber : Type 0} where
  abbrev pub new_bus : InProcBus Handler Subscriber
  new_bus = record { handlers = []; subscribers = []; caps = [] }

  unfoldable pub register_handler :
      Text
      → Text
      → List Text
      → Handler
      → InProcBus Handler Subscriber
      → InProcBus Handler Subscriber
  unfolding put_handler
  register_handler target method required handler bus = record bus {
    handlers = put_handler (target, method) (handler, required) bus.handlers;
  }

  unfoldable pub subscribe :
      Text → Text → Subscriber → InProcBus Handler Subscriber → InProcBus Handler Subscriber
  unfolding get insert
  subscribe name topic subscriber bus = record bus {
    subscribers =
        insert topic (list_of (get topic bus.subscribers) ++ (name, subscriber) ∷ [])
          bus.subscribers;
  }

  unfoldable pub set_caps :
      Text → CapSet → InProcBus Handler Subscriber → InProcBus Handler Subscriber
  unfolding insert
  set_caps name caps bus = record bus { caps = insert name caps bus.caps }

  unfoldable pub admitted :
      {Value : Type 0} → InProcBus Handler Subscriber → Request Value → StdResult Handler Error
  unfolding route find_handler get
  admitted bus req =
      route req (find_handler (req.target, req.method) bus.handlers) (get req.caller bus.caps)

  module _ {Value World : Type 0}
      (handle : Handler → Request Value → World → StdResult Value Error × World)
      (notify : Subscriber → Event Value → World → World) where
    abbrev pub reply_of :
        StdResult Handler Error → Request Value → World → StdResult Value Error × World
    reply_of (err problem) req w = (err problem, w)
    reply_of (ok handler) req w = handle handler req w

    -- `Bus::request`; a reply is its payload.
    unfoldable pub request :
        InProcBus Handler Subscriber → Request Value → World → StdResult Value Error × World
    unfolding admitted
    request bus req w = reply_of (admitted bus req) req w

    unfoldable pub notify_all : List (Text × Subscriber) → Event Value → World → World
    notify_all [] evt w = w
    notify_all ((_, s) ∷ subscribers) evt w = notify_all subscribers evt (notify s evt w)

    -- `Bus::emit`, which never fails.
    unfoldable pub emit : InProcBus Handler Subscriber → Event Value → World → World
    unfolding notify_all get
    emit bus evt w = notify_all (list_of (get evt.topic bus.subscribers)) evt w
