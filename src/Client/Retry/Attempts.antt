-- ===== src/Client/Retry/Attempts.antt =====
-- What the retrying middleware has done when it returns a result.
use aigo.Base.{
  ℕ, zero, suc, ◌+◌, ◌≤◌, ◌≡◌, refl, ap, ◌∙◌, true, Option, none, some, length, arith, Bool-cases,
  inl, inr,
}
use aigo.Base.Int.{pos}
use aigo.Errors.{Error, Outcome, ok, err, is_retryable}
use aigo.Workflow.{Graph}
use aigo.Engine.{Engine, EngineResult}
use aigo.Client.Retry.{
  RetryEnv, Retried, retry_delay, ended, also_told, resumed_after, after_failure, unless_done,
  retry_round, retry_loop, execute_retrying,
}

module _ {W : Type 0} (env : RetryEnv W) (next : Engine W) (g : Graph) where
  -- From the first world to the second, so many attempts failed, each with an error that may be
  -- retried while the context was live, and each wait before the next one came to its end. The
  -- number before the worlds is that of the first attempt.
  pub data Failures : ℕ → W → W → ℕ → Type 0 where
    start : (attempt : ℕ) (w : W) → Failures attempt w w 0
    again :
        (attempt : ℕ) (w w₁ w₂ w' : W) (e : Error) (n : ℕ)
        → next.execute g w ≡ (err e, w₁)
        → is_retryable e ≡ true
        → env.ctx_err w₁ ≡ none
        → env.wait (retry_delay env e attempt w₁) w₁ ≡ (none, w₂)
        → Failures (attempt + 1) w₂ w' n
        → Failures attempt w w' (suc n)

  -- How a result came: after at most `left` failures, from the engine itself; and a progress report was
  -- made for each failure.
  abbrev pub Came : ℕ → ℕ → W → Retried W → EngineResult → Type 0
  Came left attempt w x r =
      (n : ℕ) × (w' : W) × (n ≤ left)
      × Failures attempt w w' n
      × ((next.execute g w').0 ≡ ok r)
      × (length x.told ≡ n)

  fst-answer :
      (w w₁ : W) (o : Outcome EngineResult) → next.execute g w ≡ (o, w₁) → (next.execute g w).0 ≡ o
  fst-answer w w₁ o h = ap (λ (x : Outcome EngineResult × W). x.0) h

  module _ (left attempt : ℕ) (k : W → Retried W)
      (goes : (w : W) (r : EngineResult)
        → (k w).outcome ≡ ok r
        → Came left (attempt + 1) w (k w) r) where
    resumed-Came :
        (w w₁ : W) (e : Error) (r : EngineResult) (b : Option Error × W)
        → next.execute g w ≡ (err e, w₁)
        → is_retryable e ≡ true
        → env.ctx_err w₁ ≡ none
        → env.wait (retry_delay env e attempt w₁) w₁ ≡ b
        → (resumed_after k b).outcome ≡ ok r
        → Came (suc left) attempt w (also_told (attempt + 1) (resumed_after k b)) r
    unfolding resumed_after also_told ended
    resumed-Came w w₁ e r (some c, w₂) a t live wait h = absurd (ground arith)
    resumed-Came w w₁ e r (none, w₂) a t live wait h =
        let (n, w', l, failures, answer, told) = goes w₂ r h in
        (
          suc n,
          w',
          omega arith,
          Failures.again attempt w w₁ w₂ w' e n a t live wait failures,
          answer,
          ap suc told,
        )

    live-Came :
        (w w₁ : W) (e : Error) (r : EngineResult) (o : Option Error)
        → next.execute g w ≡ (err e, w₁)
        → is_retryable e ≡ true
        → env.ctx_err w₁ ≡ o
        → (unless_done env e attempt (some k) w₁ o).outcome ≡ ok r
        → Came (suc left) attempt w (unless_done env e attempt (some k) w₁ o) r
    unfolding unless_done after_failure ended also_told
    live-Came w w₁ e r (some c) a t live h = absurd (ground arith)
    live-Came w w₁ e r none a t live h = resumed-Came w w₁ e r _ a t live refl h

    round-Came :
        (w : W) (r : EngineResult) (a : Outcome EngineResult × W)
        → next.execute g w ≡ a
        → (retry_round env attempt (some k) a).outcome ≡ ok r
        → Came (suc left) attempt w (retry_round env attempt (some k) a) r
    unfolding retry_round ended
    round-Came w r (ok x, w') a h =
        (0, w, omega arith, Failures.start attempt w, fst-answer w w' (ok x) a ∙ h, refl)
    round-Came w r (err e, w₁) a h = elim (Bool-cases (is_retryable e)) [
      | inl t ↦ rw t (live-Came w w₁ e r (env.ctx_err w₁) a t refl (ground (arith, t, h)))
      | inr t ↦ absurd (ground (arith, t, h))
    ]

  live-last :
      (attempt : ℕ) (w₁ : W) (e : Error) (r : EngineResult) (o : Option Error)
      → (unless_done env e attempt none w₁ o).outcome ≡ ok r
      → ⊥
  unfolding unless_done after_failure ended also_told
  live-last attempt w₁ e r (some c) h = ground arith
  live-last attempt w₁ e r none h = ground arith

  round-last :
      (attempt : ℕ) (w : W) (r : EngineResult) (a : Outcome EngineResult × W)
      → next.execute g w ≡ a
      → (retry_round env attempt none a).outcome ≡ ok r
      → Came 0 attempt w (retry_round env attempt none a) r
  unfolding retry_round ended
  round-last attempt w r (ok x, w') a h =
      (0, w, omega arith, Failures.start attempt w, fst-answer w w' (ok x) a ∙ h, refl)
  round-last attempt w r (err e, w₁) a h = elim (Bool-cases (is_retryable e)) [
    | inl t ↦ absurd (live-last attempt w₁ e r (env.ctx_err w₁) (ground (arith, t, h)))
    | inr t ↦ absurd (ground (arith, t, h))
  ]

  loop-Came :
      (left attempt : ℕ) (w : W) (r : EngineResult)
      → (retry_loop env next g left attempt w).outcome ≡ ok r
      → Came left attempt w (retry_loop env next g left attempt w) r
  unfolding retry_loop
  loop-Came zero attempt w r h = round-last attempt w r (next.execute g w) refl h
  loop-Came (suc left) attempt w r h =
      round-Came left attempt _ (λ w' r' h'. loop-Came left (attempt + 1) w' r' h') w r
        (next.execute g w) refl h

  -- A result of the retrying engine is the engine's own, after at most `maxRetries` failures, each
  -- with an error that may be retried, with a live context and followed by a wait that came to its
  -- end, of the duration that `retryDelay` gives in 64 bits; the progress callback is told once of
  -- each failure.
  pub execute_retrying-Came :
      (max_retries : ℕ) (w : W) (r : EngineResult)
      → (execute_retrying env next (pos max_retries) g w).outcome ≡ ok r
      → Came max_retries 0 w (execute_retrying env next (pos max_retries) g w) r
  unfolding execute_retrying
  execute_retrying-Came max_retries w r h = loop-Came max_retries 0 w r h
