-- ===== src/Client/Execute/Laws.antt =====
-- When `Execute` reaches the engine, and what it makes of the engine's answer.
use aigo.Base.{
  String, ◌≡◌, refl, sym, ap, ◌∙◌, ◌⊎◌, Bool, true, false, ◌&&◌, Option, none, some, List, [], ◌∷◌,
  ◌++◌, arith, Bool-cases, Option-cases, inl, inr,
}
use aigo.Base.Assoc.{get, has, has-eq-get}
use aigo.Errors.{Error, Outcome, ok, err}
use aigo.Workflow.{Graph, validate}
use aigo.Engine.{Engine, EngineResult}
use aigo.Client.{Client, Middleware, is_disabled, is_enabled, engine_not_found, engine_disabled}
use aigo.Client.Execute.{
  Env, Result, refused, Executed, execute, apply_middleware, dispatch, checked, call, finish,
  public_result,
}

module _ {W : Type 0} where
  -- Middleware added later wraps the engine more closely than all that was added before.
  pub apply_middleware-append :
      (name : String) (first later : List (Middleware W)) (e : Engine W)
      → apply_middleware name (first ++ later) e
        ≡ apply_middleware name first (apply_middleware name later e)
  unfolding apply_middleware
  apply_middleware-append name [] later e = refl
  apply_middleware-append name (mw ∷ first) later e =
      ap (mw name) (apply_middleware-append name first later e)

-- Whether `Validate` returns nil.
pub is_valid : Graph → Bool
is_valid g = elim (validate g) [ none ↦ true | some e ↦ false ]

module _ {W : Type 0} (env : Env W) (c : Client W) (name : String) (g : Graph) (watching : Bool)
    (w : W) where
  -- Either the call is refused, or the wrapped engine is called.
  abbrev Cases : Type 0
  Cases =
      ((e : Error) × (execute env c name g watching w ≡ refused e w)
        × ((is_enabled c name && is_valid g) ≡ false))
      ⊎ ((x : Engine W) × (get c.engines name ≡ some x)
          × (is_enabled c name ≡ true)
          × (validate g ≡ none)
          × (execute env c name g watching w
              ≡ call env name (apply_middleware name c.middleware x) g watching w))

  cases_found :
      (x : Engine W) (v : Option Error) → get c.engines name ≡ some x → validate g ≡ v → Cases
  unfolding execute dispatch checked is_enabled is_valid
  cases_found x v found valid = elim (Bool-cases (is_disabled c name)) [
    | inl d ↦ inl (engine_disabled name, rw (found, dispatch) (rw d), ground (arith, d))
    | inr d ↦ split v valid d
  ]
    where
      registered : has c.engines name ≡ true
      registered = ground (arith, has-eq-get c.engines name, found)

      split : (u : Option Error) → validate g ≡ u → is_disabled c name ≡ false → Cases
      split none u d = inr (
        x,
        found,
        ground (arith, registered, d),
        u,
        rw (found, dispatch) (rw d (rw (u, checked))),
      )
      split (some e) u d = inl (
        Error.wrap "aigo" e,
        rw (found, dispatch) (rw d (rw (u, checked))),
        ground (arith, registered, d, u),
      )

  execute-cases : Cases
  unfolding execute dispatch is_enabled
  execute-cases = elim (Option-cases (get c.engines name)) [
    | inl e ↦
        inl (engine_not_found name, rw (e, dispatch), ground (arith, has-eq-get c.engines name))
    | inr (x, e) ↦ cases_found x (validate g) e refl
  ]

  -- `Execute` refuses an engine that is not enabled, or a graph that is not valid, with an error, no
  -- effect on the world and no event.
  pub execute-refused :
      (is_enabled c name && is_valid g) ≡ false
      → ((e : Error) × ((execute env c name g watching w).outcome ≡ err e))
        × ((execute env c name g watching w).events ≡ [])
        × ((execute env c name g watching w).world ≡ w)
  execute-refused h = elim execute-cases [
    | inl (e, p, _) ↦ (
      (e, ap (λ (r : Executed W). r.outcome) p),
      ap (λ (r : Executed W). r.events) p,
      ap (λ (r : Executed W). r.world) p,
    )
    | inr (x, f, on, v, p) ↦ absurd (unfold is_valid in ground (arith, on, v, h))
  ]

  -- The answer of the engine that stands behind a result.
  abbrev pub Answer : Result → Type 0
  Answer r =
      (x : Engine W) × (er : EngineResult) × (get c.engines name ≡ some x)
      × (((apply_middleware name c.middleware x).execute g w).0 ≡ ok er)
      × (r.value ≡ er.value)
      × (r.results ≡ er.results)

  finish-Answer :
      (x : Engine W) (o : Outcome EngineResult) (after : W) (r : Result)
      → get c.engines name ≡ some x
      → ((apply_middleware name c.middleware x).execute g w).0 ≡ o
      → (finish env name watching w after o).outcome ≡ ok r
      → (r.engine ≡ name) × Answer r
  unfolding finish public_result
  finish-Answer x (err e) after r f a h = absurd (ground arith)
  finish-Answer x (ok er) after r f a h = (ground arith, (x, er, f, a, ground arith, ground arith))

  call-Answer :
      (x : Engine W) (r : Result)
      → get c.engines name ≡ some x
      → (call env name (apply_middleware name c.middleware x) g watching w).outcome ≡ ok r
      → (r.engine ≡ name) × Answer r
  unfolding call
  call-Answer x r f h = finish-Answer x _ _ r f refl h

  -- A result comes only from an enabled engine on a valid graph; it carries the name that was asked
  -- for, and the value and the results that the wrapped engine returned.
  pub execute-ok :
      (r : Result)
      → (execute env c name g watching w).outcome ≡ ok r
      → (is_enabled c name ≡ true) × (validate g ≡ none) × (r.engine ≡ name) × Answer r
  execute-ok r h = elim execute-cases [
    | inl (e, p, _) ↦ absurd (cc (ap (λ (r : Executed W). r.outcome) p, h))
    | inr (x, f, on, v, p) ↦
        let (n, a) = call-Answer x r f (sym (ap (λ (r : Executed W). r.outcome) p) ∙ h) in
        (on, v, n, a)
  ]
