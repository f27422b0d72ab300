-- ===== src/Client/Fallback/Attempts.antt =====
-- `ExecuteWithFallback` against a relation that says what a run of failing attempts is.
use mathlib.Core.List.{append-nil, append_assoc}
use aigo.Base.{
  String, ◌≡◌, refl, sym, ap, subst, ◌∙◌, ◌⊎◌, Bool, none, some, List, [], ◌∷◌, ◌++◌, inl, inr,
  Option-cases,
}
use aigo.Errors.{Error, Outcome, ok, err}
use aigo.Workflow.{Graph}
use aigo.Client.{Client}
use aigo.Client.Execute.{Env, Result, execute}
use aigo.Client.Fallback.{
  FallbackError, Fallback, settle, unless_cancelled, try_engines, execute_with_fallback,
  all_engines_failed,
}

module _ {W : Type 0} (env : Env W) (c : Client W) (g : Graph) (watching : Bool) where
  -- From world `w` the engines fail one after another with these errors, each with a context that is
  -- not yet done, and leave the last world behind.
  pub data Attempts : W → List String → List FallbackError → W → Type 0 where
    stop : (w : W) → Attempts w [] [] w
    fail :
        (w w' : W) (name : String) (e : Error) (names : List String) (skipped : List FallbackError)
        → env.ctx_err w ≡ none
        → (execute env c name g watching w).outcome ≡ err e
        → Attempts (execute env c name g watching w).world names skipped w'
        → Attempts w (name ∷ names) (record { engine = name; error = e } ∷ skipped) w'

  -- How the loop may end, `w` being the world in which the last attempt begins: an engine succeeds,
  -- the context is done before the next engine, or no engine is left.
  pub data Ending (w : W) (f : Fallback W) : List String → Type 0 where
    success :
        (name : String) (r : Result) (rest : List String)
        → env.ctx_err w ≡ none
        → (execute env c name g watching w).outcome ≡ ok r
        → f.outcome ≡ ok (name, r)
        → f.world ≡ (execute env c name g watching w).world
        → Ending w f (name ∷ rest)
    cancelled :
        (name : String) (rest : List String) (e : Error)
        → env.ctx_err w ≡ some e
        → f.outcome ≡ err (Error.wrap "aigo: context cancelled before engine" e)
        → f.world ≡ w
        → Ending w f (name ∷ rest)
    exhausted : f.outcome ≡ err all_engines_failed → f.world ≡ w → Ending w f []

  -- The attempts that failed, those left, and how the loop ended.
  abbrev pub Explained : W → List String → List FallbackError → Fallback W → Type 0
  Explained w names before f =
      (tried rest : List String) × (skipped : List FallbackError) × (w' : W) × (names
        ≡ tried ++ rest)
      × (f.skipped ≡ before ++ skipped)
      × Attempts w tried skipped w'
      × Ending w' f rest

  Outcome-cases : (o : Outcome Result) → ((r : Result) × (o ≡ ok r)) ⊎ ((e : Error) × (o ≡ err e))
  Outcome-cases (ok r) = inl (r, refl)
  Outcome-cases (err e) = inr (e, refl)

  module _ (name : String) (names : List String) (before : List FallbackError) (w : W) where
    try-cancelled :
        (e : Error)
        → env.ctx_err w ≡ some e
        → try_engines env c g watching (name ∷ names) before w ≡ record {
          outcome = err (Error.wrap "aigo: context cancelled before engine" e);
          skipped = before;
          world = w;
        }
    unfolding try_engines
    try-cancelled e h = rw (h, unless_cancelled)

    try-ok :
        (r : Result)
        → env.ctx_err w ≡ none
        → (execute env c name g watching w).outcome ≡ ok r
        → try_engines env c g watching (name ∷ names) before w ≡ record {
          outcome = ok (name, r);
          skipped = before;
          world = (execute env c name g watching w).world;
        }
    unfolding try_engines
    try-ok r h k = rw (h, unless_cancelled) (rw (k, settle))

    try-err :
        (e : Error)
        → env.ctx_err w ≡ none
        → (execute env c name g watching w).outcome ≡ err e
        → try_engines env c g watching (name ∷ names) before w
          ≡ try_engines env c g watching names
              (before ++ record { engine = name; error = e } ∷ [])
              (execute env c name g watching w).world
    unfolding try_engines
    try-err e h k = rw (h, unless_cancelled) (rw (k, settle))

  try_engines-Explained :
      (names : List String) (before : List FallbackError) (w : W)
      → Explained w names before (try_engines env c g watching names before w)
  unfolding try_engines
  try_engines-Explained [] before w =
      ([], [], [], w, refl, sym (append-nil before), Attempts.stop w, Ending.exhausted refl refl)
  try_engines-Explained (name ∷ names) before w = elim (Option-cases (env.ctx_err w)) [
    | inr (e, h) ↦
        let p = try-cancelled name names before w e h in
        (
          [],
          name ∷ names,
          [],
          w,
          refl,
          ap (λ (f : Fallback W). f.skipped) p ∙ sym (append-nil before),
          Attempts.stop w,
          Ending.cancelled name names e h (ap (λ (f : Fallback W). f.outcome) p)
              (ap (λ (f : Fallback W). f.world) p),
        )
    | inl h ↦ elim (Outcome-cases (execute env c name g watching w).outcome) [
      | inl (r, k) ↦
          let p = try-ok name names before w r h k in
          (
            [],
            name ∷ names,
            [],
            w,
            refl,
            ap (λ (f : Fallback W). f.skipped) p ∙ sym (append-nil before),
            Attempts.stop w,
            Ending.success name r names h k (ap (λ (f : Fallback W). f.outcome) p)
                (ap (λ (f : Fallback W). f.world) p),
          )
      | inr (e, k) ↦
          let p = try-err name names before w e h k in
          let failure : FallbackError = record { engine = name; error = e } in
          let (tried, rest, skipped, w', cut, all, attempts, ending) =
            try_engines-Explained names (before ++ failure ∷ [])
              (execute env c name g watching w).world in
          (
            name ∷ tried,
            rest,
            failure ∷ skipped,
            w',
            ap (◌∷◌ name) cut,
            ap (λ (f : Fallback W). f.skipped) p ∙ all ∙ append_assoc before (failure ∷ []) skipped,
            Attempts.fail w w' name e tried skipped h k attempts,
            subst (λ (f : Fallback W). Ending w' f rest) (sym p) ending,
          )
    ]
  ]

  -- On a non-empty list `ExecuteWithFallback` tries a prefix of the engines, in order, each failing
  -- with the error that is recorded under its name in `Skipped`; then the next engine succeeds and
  -- gives the result, or the context is done, or no engine is left. Nothing else happens.
  pub execute_with_fallback-Explained :
      (name : String) (names : List String) (w : W)
      → Explained w (name ∷ names) [] (execute_with_fallback env c g watching (name ∷ names) w)
  unfolding execute_with_fallback
  execute_with_fallback-Explained name names w = try_engines-Explained (name ∷ names) [] w
