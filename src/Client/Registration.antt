-- ===== src/Client/Registration.antt =====
-- client.go: `RegisterAll`, `RegisterAllIfKey` and `RegisterProvider`.
pub mod Added
use aigo.Base.{String, Bool, true, false, Option, none, some, List, [], ◌∷◌, if◌then◌else◌}
use aigo.Base.Assoc.{Map}
use aigo.Errors.{Error}
use aigo.Engine.{Engine}
use aigo.Client.{Client, register_engine, register_engine_if_key}

-- `EngineEntry`, and the entries of a provider
pub record EngineEntry (W : Type 0) : Type 0 where
  pub name : String
  pub engine : Option (Engine W)
  pub env_vars : List String

-- The names that were registered, the error if one failed, and the client.
pub record Registered (W : Type 0) : Type 0 where
  pub names : List String
  pub failure : Option Error
  pub client : Client W

module _ {W : Type 0} (env : String → String) where
  -- One entry: whether it was registered, and the error.
  unfoldable pub register_entry :
      Client W → EngineEntry W → List String → (Bool × Option Error) × Client W
  register_entry c e [] =
      let (failure, c') = register_engine c e.name e.engine in ((true, failure), c')
  register_entry c e (v ∷ vs) = register_engine_if_key env c e.name e.engine (v ∷ vs)

  -- After an entry: its error ends the loop.
  unfoldable pub entry_done :
      String → (Client W → Registered W) → (Bool × Option Error) × Client W → Registered W
  entry_done name next ((did, some e), c) = record { names = []; failure = some e; client = c }
  entry_done name next ((did, none), c) =
      let rest = next c in if did then record rest { names = name ∷ rest.names } else rest

  -- `RegisterAllIfKey`
  unfoldable pub register_all_if_key : List (EngineEntry W) → Client W → Registered W
  register_all_if_key [] c = record { names = []; failure = none; client = c }
  register_all_if_key (e ∷ entries) c =
      entry_done e.name (λ c'. register_all_if_key entries c') (register_entry c e e.env_vars)

  -- `RegisterProvider`: the same loop over the entries of the provider.
  unfoldable pub register_provider : List (EngineEntry W) → Client W → Registered W
  unfolding register_all_if_key
  register_provider configs c = register_all_if_key configs c

module _ {W : Type 0} where
  after_registration :
      (Client W → Option Error × Client W) → Option Error × Client W → Option Error × Client W
  after_registration next (some e, c) = (some e, c)
  after_registration next (none, c) = next c

  -- `RegisterAll`, in the order in which the map is walked.
  unfoldable pub register_all : Map (Option (Engine W)) → Client W → Option Error × Client W
  unfolding after_registration
  register_all [] c = (none, c)
  register_all ((name, e) ∷ rest) c =
      after_registration (λ c'. register_all rest c') (register_engine c name e)
