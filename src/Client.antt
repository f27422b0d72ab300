-- ===== src/Client.antt =====
-- client.go: the client's registry of engines, and what it lists. Its calls that execute are in
-- the modules below: Execute, Fallback, Auto, Tasks, Pipeline, Retry; Registration is the rest of the registry.
pub mod Lifecycle
pub mod Listing
pub mod Execute
pub mod Fallback
pub mod Apply
pub mod Auto
pub mod Pipeline
pub mod Retry
pub mod Registration
pub mod Tasks
use Prim.Native.String.{◌++◌ as text_append}
use aigo.Base.{
  String, Bool, true, false, not, ◌&&◌, Option, none, some, List, [], ◌∷◌, ◌++◌, select, some_of,
  str_eq, if◌then◌else◌,
}
use aigo.Base.Assoc.{Map, get, has, put, delete, keys}
use aigo.Base.Sort.{sort_strings}
use aigo.Errors.{Error}
use aigo.Engine.{Engine, Capability}

-- `Middleware`
abbrev pub Middleware : Type 0 → Type 0
Middleware W = String → Engine W → Engine W

-- `Client`, but for the task store and the searcher, which the calls that use them take.
pub record Client (W : Type 0) : Type 0 where
  pub engines : Map (Engine W)
  pub disabled : Map Bool
  pub middleware : List (Middleware W)

abbrev pub engine_nil : Error
engine_nil = Error.plain "aigo: engine is nil"

abbrev pub engine_name_empty : Error
engine_name_empty = Error.plain "aigo: engine name is empty"

abbrev pub engine_exists : String → Error
engine_exists name = Error.wrap name (Error.plain "aigo: engine already registered")

abbrev pub engine_not_found : String → Error
engine_not_found name = Error.wrap name (Error.plain "aigo: engine not found")

abbrev pub engine_disabled : String → Error
engine_disabled name = Error.wrap name (Error.plain "aigo: engine is disabled")

-- Whether `AvailableFor` lists an engine with this capability.
unfoldable pub serves : String → Option Capability → Bool
serves media_type none = true
serves media_type (some cap) = some_of (λ mt. str_eq mt media_type) cap.media_types

module _ {W : Type 0} where
  -- `NewClient` with no option
  abbrev pub new_client : Client W
  new_client = record { engines = []; disabled = []; middleware = [] }

  -- `c.disabled[name]`, false for a missing key
  unfoldable pub is_disabled : Client W → String → Bool
  is_disabled c name = elim (get c.disabled name) [ none ↦ false | some b ↦ b ]

  register_some : Client W → String → Engine W → Option Error × Client W
  register_some c name e =
      if has c.engines name
      then (some (engine_exists name), c)
      else (none, record c { engines = put c.engines name e })

  -- `RegisterEngine`; `none` is a nil engine.
  unfoldable pub register_engine : Client W → String → Option (Engine W) → Option Error × Client W
  unfolding register_some
  register_engine c name none =
      if str_eq name "" then (some engine_name_empty, c) else (some engine_nil, c)
  register_engine c name (some e) =
      if str_eq name "" then (some engine_name_empty, c) else register_some c name e

  -- `UnregisterEngine`
  unfoldable pub unregister_engine : Client W → String → Option Error × Client W
  unregister_engine c name =
      if has c.engines name
      then (none, record c { engines = delete c.engines name; disabled = delete c.disabled name })
      else (some (engine_not_found name), c)

  -- `DisableEngine`
  unfoldable pub disable_engine : Client W → String → Option Error × Client W
  disable_engine c name =
      if has c.engines name
      then (none, record c { disabled = put c.disabled name true })
      else (some (engine_not_found name), c)

  -- `EnableEngine`
  unfoldable pub enable_engine : Client W → String → Option Error × Client W
  enable_engine c name =
      if has c.engines name
      then (none, record c { disabled = delete c.disabled name })
      else (some (engine_not_found name), c)

  -- `IsEnabled`
  unfoldable pub is_enabled : Client W → String → Bool
  unfolding is_disabled
  is_enabled c name = has c.engines name && not (is_disabled c name)

  -- `Use`
  unfoldable pub use_middleware : Client W → List (Middleware W) → Client W
  use_middleware c mw = record c { middleware = c.middleware ++ mw }

  -- `RegisterEngineIfKey`; `env` is `os.Getenv`.
  unfoldable pub register_engine_if_key :
      (String → String)
      → Client W
      → String
      → Option (Engine W)
      → List String
      → (Bool × Option Error) × Client W
  unfolding register_engine
  register_engine_if_key env c name e [] = ((false, none), c)
  register_engine_if_key env c name e (v ∷ vs) =
      let rest = register_engine_if_key env c name e vs in
      let (failure, c') = register_engine c name e in
      if str_eq (env v) "" then rest else ((true, failure), c')

  -- `EngineNames`
  unfoldable pub engine_names : Client W → List String
  unfolding is_disabled
  engine_names c = sort_strings (select (λ name. not (is_disabled c name)) (keys c.engines))

  serving : Client W → String → Map (Engine W) → List String
  unfolding is_disabled serves
  serving c media_type [] = []
  serving c media_type ((name, e) ∷ rest) =
      let others = serving c media_type rest in
      if is_disabled c name
      then others
      else if serves media_type e.capabilities
      then name ∷ others
      else others

  -- `AvailableFor`
  unfoldable pub available_for : Client W → String → List String
  unfolding serving
  available_for c media_type = sort_strings (serving c media_type c.engines)

  -- `EngineCapabilities`; an engine with no `Describer` has the empty capability.
  unfoldable pub engine_capabilities : Client W → String → Option (Option Capability)
  engine_capabilities c name = elim (get c.engines name) [
    | none ↦ none
    | some e ↦ some e.capabilities
  ]
