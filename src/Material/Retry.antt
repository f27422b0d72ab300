-- ===== src/Material/Retry.antt =====
-- material/ratelimit.go: `Retry` and `RetryWithContext`. Durations are nanoseconds in an `int64`.
pub mod Backoff
use Prim.Native.Nat.{◌-◌}
use aigo.Base.{ℕ, zero, suc, ◌+◌, ◌*◌, ◌/◌, ◌^◌, Option, none, some, ltb, ◌==◌, if◌then◌else◌}
use aigo.Base.Int.{ℤ, pos, negsuc}
use aigo.Base.Number.{power, mul64}
use aigo.Errors.{Error}

-- What a call ends with. `rand.Int63n` panics if its argument is not positive.
pub data Tried : Type 0 where
  returned : Option Error → Tried
  panicked : Tried

-- The function that is retried, the wait with the error of a context that is done first, the random
-- number below a bound, and what Go makes of `time.Duration(math.Pow(2, i))` where it does not fit.
pub record Runner (W : Type 0) : Type 0 where
  pub fn : W → Option Error × W
  pub pause : ℤ → W → Option Error × W
  pub jitter : ℕ → W → ℕ
  pub wide : ℕ → ℕ

-- The bits of an `int64`, as a number.
unfoldable pub bits : ℤ → ℕ
bits (pos n) = n
bits (negsuc n) = 2 ^ 64 - 1 - n

-- `delay`
unfoldable pub delay_after : (ℕ → ℕ) → ℤ → ℕ → ℤ
unfolding bits power mul64
delay_after wide base i = mul64 (bits base) (power wide i)

-- `int64(delay / 2)`, 0 if it is not positive.
unfoldable pub jitter_bound : ℤ → ℕ
jitter_bound (pos n) = n / 2
jitter_bound (negsuc n) = 0

-- `delay + jitter`
unfoldable pub longer : ℤ → ℕ → ℤ
unfolding mul64
longer (pos n) j = mul64 (n + j) 1
longer (negsuc n) j = negsuc n

module _ {W : Type 0} (run : Runner W) (base : ℤ) where
  -- After the wait: the context's error, or the next attempt.
  unfoldable pub paused : (W → Tried × W) → Option Error × W → Tried × W
  paused go (some e, w) = (returned (some e), w)
  paused go (none, w) = go w

  -- After attempt `i` has failed: its error if it was the last one.
  unfoldable pub after_failed_attempt : Option (W → Tried × W) → ℕ → Error → W → Tried × W
  unfolding paused delay_after jitter_bound longer
  after_failed_attempt none i e w = (returned (some e), w)
  after_failed_attempt (some go) i e w =
      let delay = delay_after run.wide base i in
      let next = paused go (run.pause (longer delay (run.jitter (jitter_bound delay) w)) w) in
      if jitter_bound delay == 0 then (panicked, w) else next

  unfoldable pub attempted : Option (W → Tried × W) → ℕ → Option Error × W → Tried × W
  unfolding after_failed_attempt
  attempted go i (none, w) = (returned none, w)
  attempted go i (some e, w) = after_failed_attempt go i e w

  -- The loop from attempt `i`, with the attempts that are left after it.
  unfoldable pub attempt_from : ℕ → ℕ → W → Tried × W
  unfolding attempted
  attempt_from zero i w = attempted none i (run.fn w)
  attempt_from (suc left) i w = attempted (some (λ w'. attempt_from left (suc i) w')) i (run.fn w)

-- `RetryWithContext`
unfoldable pub retry_with_context : {W : Type 0} → Runner W → ℤ → ℤ → W → Tried × W
unfolding attempt_from
retry_with_context run (pos (suc left)) base w = attempt_from run base left 0 w
retry_with_context run (pos zero) base w = (returned none, w)
retry_with_context run (negsuc n) base w = (returned none, w)

-- `Retry`, which sleeps without a context.
unfoldable pub retry : {W : Type 0} → Runner W → (ℤ → W → W) → ℤ → ℤ → W → Tried × W
unfolding retry_with_context
retry run sleep max_attempts base w =
    retry_with_context (record run { pause = λ d w'. (none, sleep d w') }) max_attempts base w
