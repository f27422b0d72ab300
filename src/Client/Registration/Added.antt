-- ===== src/Client/Registration/Added.antt =====
-- What a registration of several engines adds to the registry.
use aigo.Base.{
  String, ◌≡◌, Bool, true, false, ◌&&◌, ◌||◌, Option, none, some, List, [], ◌∷◌, some_of, str_eq,
  arith,
}
use aigo.Base.Assoc.{has, has-put}
use aigo.Errors.{Error}
use aigo.Engine.{Engine}
use aigo.Client.{Client, register_engine, register_engine_if_key, register_some}
use aigo.Client.Registration.{
  EngineEntry, Registered, register_entry, entry_done, register_all_if_key,
}

-- Whether a call succeeded and registered.
abbrev pub registers : Bool × Option Error → Bool
registers (did, none) = did
registers (did, some e) = false

module _ {W : Type 0} (env : String → String) where
  has-register_some :
      (c : Client W) (name : String) (e : Engine W) (n : String)
      → has (register_some c name e).1.engines n
        ≡ (has c.engines n || (registers (true, (register_some c name e).0) && str_eq name n))
  unfolding register_some
  has-register_some c name e n = ground (arith, has-put c.engines name n e)

  pub has-register_engine :
      (c : Client W) (name : String) (e : Option (Engine W)) (n : String)
      → has (register_engine c name e).1.engines n
        ≡ (has c.engines n || (registers (true, (register_engine c name e).0) && str_eq name n))
  unfolding register_engine
  has-register_engine c name none n = ground arith
  has-register_engine c name (some e) n = ground (arith, has-register_some c name e n)

  has-register_engine_if_key :
      (c : Client W) (name : String) (e : Option (Engine W)) (vars : List String) (n : String)
      → has (register_engine_if_key env c name e vars).1.engines n ≡ (
          has c.engines n
          || (registers (register_engine_if_key env c name e vars).0 && str_eq name n))
  unfolding register_engine_if_key
  has-register_engine_if_key c name e [] n = ground arith
  has-register_engine_if_key c name e (v ∷ vs) n =
      ground (arith, has-register_engine_if_key c name e vs n, has-register_engine c name e n)

  has-register_entry :
      (c : Client W) (e : EngineEntry W) (vars : List String) (n : String)
      → has (register_entry env c e vars).1.engines n
        ≡ (has c.engines n || (registers (register_entry env c e vars).0 && str_eq e.name n))
  unfolding register_entry
  has-register_entry c e [] n = has-register_engine c e.name e.engine n
  has-register_entry c e (v ∷ vs) n = has-register_engine_if_key c e.name e.engine (v ∷ vs) n

  has-entry_done :
      (c : Client W) (name n : String) (next : Client W → Registered W)
      (x : (Bool × Option Error) × Client W)
      → has x.1.engines n ≡ (has c.engines n || (registers x.0 && str_eq name n))
      → ((c' : Client W)
          → has (next c').client.engines n
            ≡ (has c'.engines n || some_of (λ m. str_eq m n) (next c').names))
      → has (entry_done env name next x).client.engines n
        ≡ (has c.engines n || some_of (λ m. str_eq m n) (entry_done env name next x).names)
  unfolding entry_done
  has-entry_done c name n next ((did, some e), c') h k = ground (arith, h)
  has-entry_done c name n next ((did, none), c') h k = ground (arith, h, k c')

  -- `RegisterAllIfKey` leaves registered what was registered before and the names that it returns,
  -- and nothing else, also when it stops at an error.
  pub has-register_all_if_key :
      (entries : List (EngineEntry W)) (c : Client W) (n : String)
      → has (register_all_if_key env entries c).client.engines n
        ≡ (has c.engines n || some_of (λ m. str_eq m n) (register_all_if_key env entries c).names)
  unfolding register_all_if_key
  has-register_all_if_key [] c n = ground arith
  has-register_all_if_key (e ∷ entries) c n =
      has-entry_done c e.name n _ (register_entry env c e e.env_vars)
        (has-register_entry c e e.env_vars n) (λ c'. has-register_all_if_key entries c' n)
