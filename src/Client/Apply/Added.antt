-- ===== src/Client/Apply/Added.antt =====
-- What a configuration adds to the registry.
use aigo.Base.{
  String, ◌≡◌, true, ◌&&◌, ◌||◌, Option, none, some, List, [], ◌∷◌, some_of, str_eq, Bool-cases,
  inl, inr, arith,
}
use aigo.Base.Assoc.{Map, has}
use aigo.Errors.{Error, Outcome, ok, err}
use aigo.Engine.{Engine}
use aigo.Config.{EngineConfig, is_enabled, get_factory}
use aigo.Uri.Parse.{UriEnv, parse_uris}
use aigo.Client.{Client}
use aigo.Client.Registration.{Registered}
use aigo.Client.Registration.Added.{registers, has-register_engine}
use aigo.Client.Apply.{
  Factory, created, made_from, apply_entry, entry_applied, apply_configs, applied, apply_uri,
  apply_config,
}

module _ {W : Type 0} (factories : Map (Factory W)) where
  -- The registry afterwards: what was there, and the name if there was no error.
  abbrev Adds : Client W → String → Option Error × Client W → Type 0
  Adds c name x =
      (n : String)
      → has x.1.engines n ≡ (has c.engines n || (registers (true, x.0) && str_eq name n))

  -- The registry afterwards: what was there, and the names that are returned.
  abbrev pub AddsAll : Client W → Registered W → Type 0
  AddsAll c r =
      (n : String) → has r.client.engines n ≡ (has c.engines n || some_of (λ m. str_eq m n) r.names)

  created-Adds :
      (config : EngineConfig) (o : Outcome (Option (Engine W))) (c : Client W)
      → Adds c config.name (created config o c)
  unfolding created
  created-Adds config (err e) c n = ground arith
  created-Adds config (ok engine) c n = has-register_engine (λ v. v) c config.name engine n

  made_from-Adds :
      (config : EngineConfig) (f : Option (Factory W)) (c : Client W)
      → Adds c config.name (made_from config f c)
  unfolding made_from
  made_from-Adds config none c n = ground arith
  made_from-Adds config (some f) c n = created-Adds config (f config) c n

  apply_entry-Adds :
      (config : EngineConfig) (c : Client W) → Adds c config.name (apply_entry factories config c)
  unfolding apply_entry
  apply_entry-Adds config c n = made_from-Adds config (get_factory factories config.provider) c n

  entry_applied-AddsAll :
      (c : Client W) (name : String) (next : Client W → Registered W) (x : Option Error × Client W)
      → Adds c name x
      → ((c' : Client W) → AddsAll c' (next c'))
      → AddsAll c (entry_applied name next x)
  unfolding entry_applied
  entry_applied-AddsAll c name next (some e, c') h k n = ground (arith, h n)
  entry_applied-AddsAll c name next (none, c') h k n = ground (arith, h n, k c' n)

  apply_configs-AddsAll :
      (configs : List EngineConfig) (c : Client W) → AddsAll c (apply_configs factories configs c)
  unfolding apply_configs
  apply_configs-AddsAll [] c = λ n. ground arith
  apply_configs-AddsAll (config ∷ configs) c =
      entry_applied-AddsAll c config.name _ (apply_entry factories config c)
        (apply_entry-Adds config c) (λ c'. apply_configs-AddsAll configs c')

  -- `ApplyConfig` leaves registered what was registered before and the names that it returns, and
  -- nothing else, also when it stops at an error.
  pub apply_config-AddsAll :
      (configs : List EngineConfig) (c : Client W) → AddsAll c (apply_config factories configs c)
  unfolding apply_config
  apply_config-AddsAll [] c = λ n. ground arith
  apply_config-AddsAll (config ∷ configs) c = elim (Bool-cases (is_enabled config)) [
    | inr e ↦ rw e (apply_config-AddsAll configs c)
    | inl e ↦ elim (Bool-cases (str_eq config.name "")) [
      | inl empty ↦ rw (e, empty) (λ n. ground arith)
      | inr named ↦
          rw (e, named)
            (entry_applied-AddsAll c config.name _ (apply_entry factories config c)
              (apply_entry-Adds config c) (λ c'. apply_config-AddsAll configs c'))
    ]
  ]

module _ {W : Type 0} where
  applied-AddsAll :
      (factories : Map (Factory W)) (o : Outcome (List EngineConfig)) (c : Client W)
      → AddsAll factories c (applied factories o c)
  unfolding applied
  applied-AddsAll factories (err e) c = λ n. ground arith
  applied-AddsAll factories (ok configs) c = apply_configs-AddsAll factories configs c

  -- `ApplyURI` leaves registered what was registered before and the names that it returns, and nothing
  -- else, also when it stops at an error.
  pub apply_uri-AddsAll :
      (env : UriEnv (Option (Engine W))) (uris : String) (c : Client W)
      → AddsAll env.factories c (apply_uri env uris c)
  unfolding apply_uri
  apply_uri-AddsAll env uris c = applied-AddsAll env.factories (parse_uris env uris) c
