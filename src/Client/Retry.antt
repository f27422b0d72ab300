-- ===== src/Client/Retry.antt =====
-- middleware.go: the retrying middleware, and the delay before an attempt.
pub mod Attempts
use aigo.Base.{
  ℕ, zero, suc, ◌+◌, ◌*◌, ◌^◌, String, Bool, true, false, Option, none, some, List, [], ◌∷◌, ltb,
  if◌then◌else◌,
}
use aigo.Base.Int.{ℤ, pos, negsuc, is_pos}
use aigo.Base.Number.{power, mul64}
use aigo.Errors.{Error, ApiError, Outcome, ok, err, as_api, is_retryable, second}
use aigo.Workflow.{Graph}
use aigo.Engine.{Engine, EngineResult}

-- What the loop uses of the world: `ctx.Err()`, the `select` between the timer and `ctx.Done()`,
-- which gives the context's error if that comes first, the product of the delay with the random
-- factor, and what Go makes of a power of 2 that is no duration. Durations are nanoseconds in an
-- `int64`; a timer that is not positive fires at once.
pub record RetryEnv (W : Type 0) : Type 0 where
  pub ctx_err : W → Option Error
  pub wait : ℤ → W → Option Error × W
  pub jitter : ℤ → W → ℤ
  pub wide : ℕ → ℕ

-- The outcome, the attempts that the progress callback is told of, and the world.
pub record Retried (W : Type 0) : Type 0 where
  pub outcome : Outcome EngineResult
  pub told : List ℕ
  pub world : W

asked_delay : Option ApiError → ℤ → ℤ
asked_delay none base = base
asked_delay (some a) base = if is_pos a.retry_after then a.retry_after else base

-- `base`: 2 ^ attempt seconds, wrapped to 64 bits.
unfoldable pub backoff_base : (ℕ → ℕ) → ℕ → ℤ
unfolding power mul64
backoff_base wide attempt = mul64 (power wide attempt) second

-- `retryDelay`: the delay that the server asks for, or the base with jitter.
unfoldable pub retry_delay : {W : Type 0} → RetryEnv W → Error → ℕ → W → ℤ
unfolding asked_delay backoff_base
retry_delay env e attempt w = asked_delay (as_api e) (env.jitter (backoff_base env.wide attempt) w)

abbrev pub exhausted : Error → Error
exhausted e = Error.wrap "all retries exhausted" e

module _ {W : Type 0} where
  ended : Outcome EngineResult → W → Retried W
  ended o w = record { outcome = o; told = []; world = w }

  also_told : ℕ → Retried W → Retried W
  also_told attempt r = record r { told = attempt ∷ r.told }

  -- After the wait.
  resumed_after : (W → Retried W) → Option Error × W → Retried W
  unfolding ended
  resumed_after go (some e, w) = ended (err e) w
  resumed_after go (none, w) = go w

  -- The end of a round in which a retryable error came and the context is live.
  after_failure : RetryEnv W → Error → ℕ → Option (W → Retried W) → W → Retried W
  unfolding ended resumed_after also_told
  after_failure env e attempt none w = also_told (attempt + 1) (ended (err (exhausted e)) w)
  after_failure env e attempt (some go) w =
      also_told (attempt + 1) (resumed_after go (env.wait (retry_delay env e attempt w) w))

  unless_done : RetryEnv W → Error → ℕ → Option (W → Retried W) → W → Option Error → Retried W
  unfolding after_failure ended
  unless_done env e attempt go w (some c) = ended (err c) w
  unless_done env e attempt go w none = after_failure env e attempt go w

  -- One round, from the answer of the engine.
  retry_round : RetryEnv W → ℕ → Option (W → Retried W) → Outcome EngineResult × W → Retried W
  unfolding unless_done ended
  retry_round env attempt go (ok r, w) = ended (ok r) w
  retry_round env attempt go (err e, w) =
      if is_retryable e then unless_done env e attempt go w (env.ctx_err w) else ended (err e) w

  -- The loop, with the retries that are left after this attempt.
  retry_loop : RetryEnv W → Engine W → Graph → ℕ → ℕ → W → Retried W
  unfolding retry_round
  retry_loop env next g zero attempt w = retry_round env attempt none (next.execute g w)
  retry_loop env next g (suc left) attempt w =
      retry_round env attempt (some (λ w'. retry_loop env next g left (attempt + 1) w'))
        (next.execute g w)

  -- `Execute` of `retryEngine`. With a negative limit the loop does not run.
  unfoldable pub execute_retrying : RetryEnv W → Engine W → ℤ → Graph → W → Retried W
  unfolding retry_loop ended
  execute_retrying env next (pos max_retries) g w = retry_loop env next g max_retries 0 w
  execute_retrying env next (negsuc n) g w = ended (err (Error.plain "all retries exhausted")) w
