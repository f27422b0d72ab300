-- ===== src/Client/Apply.antt =====
-- config.go: engines that a configuration or a list of URIs names are created by the registered
-- factories and registered. Reading the file of `LoadConfig` is outside.
pub mod Added
use aigo.Base.{
  String, Bool, true, false, not, Option, none, some, List, [], ◌∷◌, str_eq, if◌then◌else◌,
}
use aigo.Base.Assoc.{Map}
use aigo.Base.Scan.{◌<>◌}
use aigo.Errors.{Error, Outcome, ok, err}
use aigo.Engine.{Engine}
use aigo.Config.{EngineConfig, Getenv, is_enabled, get_factory}
use aigo.Uri.Parse.{UriEnv, parse_uris, new_from_env}
use aigo.Client.{Client, register_engine}
use aigo.Client.Registration.{Registered, entry_done}

-- A factory; it may return a nil engine without an error.
abbrev pub Factory : Type 0 → Type 0
Factory W = EngineConfig → Outcome (Option (Engine W))

abbrev missing_factory : EngineConfig → Error
missing_factory c = Error.plain ("aigo: no factory registered for provider " <> c.provider)

abbrev missing_name : EngineConfig → Error
missing_name c = Error.plain ("aigo: config entry missing name (provider=" <> c.provider <> ")")

module _ {W : Type 0} where
  created : EngineConfig → Outcome (Option (Engine W)) → Client W → Option Error × Client W
  created config (err e) c = (
    some (
        Error.wrap
          ("aigo: create engine " <> config.name <> " (provider=" <> config.provider <> ")") e),
    c,
  )
  created config (ok engine) c = register_engine c config.name engine

  made_from : EngineConfig → Option (Factory W) → Client W → Option Error × Client W
  unfolding created
  made_from config none c = (some (missing_factory config), c)
  made_from config (some f) c = created config (f config) c

  -- The body of the loops: the factory, the engine and its registration.
  unfoldable pub apply_entry : Map (Factory W) → EngineConfig → Client W → Option Error × Client W
  unfolding made_from
  apply_entry factories config c = made_from config (get_factory factories config.provider) c

  -- After an entry: its error ends the loop, with the names so far.
  entry_applied : String → (Client W → Registered W) → Option Error × Client W → Registered W
  entry_applied name next (some e, c) = record { names = []; failure = some e; client = c }
  entry_applied name next (none, c) = let rest = next c in record rest { names = name ∷ rest.names }

  -- The loop of `ApplyURI` and `ApplyEnvURI`
  unfoldable pub apply_configs : Map (Factory W) → List EngineConfig → Client W → Registered W
  unfolding apply_entry entry_applied
  apply_configs factories [] c = record { names = []; failure = none; client = c }
  apply_configs factories (config ∷ configs) c =
      entry_applied config.name (λ c'. apply_configs factories configs c')
        (apply_entry factories config c)

  applied : Map (Factory W) → Outcome (List EngineConfig) → Client W → Registered W
  unfolding apply_configs
  applied factories (err e) c = record { names = []; failure = some e; client = c }
  applied factories (ok configs) c = apply_configs factories configs c

  -- `ApplyURI`
  unfoldable pub apply_uri : UriEnv (Option (Engine W)) → String → Client W → Registered W
  unfolding applied
  apply_uri env uris c = applied env.factories (parse_uris env uris) c

  -- `ApplyEnvURI`
  unfoldable pub apply_env_uri : UriEnv (Option (Engine W)) → Getenv → Client W → Registered W
  unfolding applied
  apply_env_uri env getenv c = applied env.factories (new_from_env env getenv) c

  -- `ApplyConfig`: entries that are disabled are skipped, an entry without a name ends the loop.
  unfoldable pub apply_config : Map (Factory W) → List EngineConfig → Client W → Registered W
  unfolding apply_entry entry_applied
  apply_config factories [] c = record { names = []; failure = none; client = c }
  apply_config factories (config ∷ configs) c =
      let rest = apply_config factories configs c in
      let entry =
        entry_applied config.name (λ c'. apply_config factories configs c')
          (apply_entry factories config c) in
      if not (is_enabled config)
      then rest
      else if str_eq config.name ""
      then record { names = []; failure = some (missing_name config); client = c }
      else entry
