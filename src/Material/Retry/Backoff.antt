-- ===== src/Material/Retry/Backoff.antt =====
-- material/ratelimit.go: the course of a call of `RetryWithContext`.
use aigo.Base.{
  ℕ, zero, suc, ◌+◌, ◌*◌, ◌/◌, ◌^◌, ◌<◌, ◌≤◌, ◌≡◌, refl, sym, subst, Option, none, some, true,
  false, ltb, ◌==◌, arith,
}
use native.Mathlib.Nat.{mul-le-mul_left}
use aigo.Base.Int.{ℤ, pos, negsuc}
use aigo.Base.Number.{power, mul64}
use aigo.Errors.{Error}
use aigo.Material.Retry.{
  Tried, returned, Runner, bits, delay_after, jitter_bound, longer, paused, after_failed_attempt,
  attempted, attempt_from, retry_with_context,
}

-- A wait of at least the delay and less than twice the delay.
abbrev pub IsBetween : ℕ → ℤ → Type 0
IsBetween delay (pos d) = (delay ≤ d) × (d < 2 * delay)
IsBetween delay (negsuc d) = ⊥

mul64_fits : (a b : ℕ) → a * b < 2 ^ 63 → mul64 a b ≡ pos (a * b)
unfolding mul64
mul64_fits a b h = ground arith

ltb-true : (a b : ℕ) → a < b → ltb a b ≡ true
ltb-true a b h = ground arith

lt_double : (a : ℕ) → a < 2 ^ 62 → a < 2 ^ 63
lt_double a h = omega arith

half_positive : (a : ℕ) → 2 ≤ a → 0 < a / 2
half_positive a h = omega arith

half_nonzero : (a : ℕ) → 2 ≤ a → (a / 2 == 0) ≡ false
half_nonzero a h = ground arith

longer-IsBetween :
    (delay j : ℕ) → delay < 2 ^ 62 → j < delay / 2 → IsBetween delay (longer (pos delay) j)
unfolding longer mul64
longer-IsBetween delay j h k = ground arith

pow_step : (i : ℕ) → 2 ^ suc i ≡ 2 * 2 ^ i
pow_step i = ground arith

add_suc : (i k : ℕ) → suc (i + k) ≡ i + suc k
add_suc i k = omega arith

suc_add : (i k : ℕ) → suc i + k ≡ i + suc k
suc_add i k = omega arith

zero_add : (n : ℕ) → n ≡ 0 + n
zero_add n = omega arith

pow_positive : (i : ℕ) → 1 ≤ 2 ^ i
pow_positive zero = omega arith
pow_positive (suc i) = let p = pow_positive i in ground arith

pow_grows : (i k : ℕ) → 2 ^ i ≤ 2 ^ (i + k)
pow_grows i zero = ground arith
pow_grows i (suc k) =
    let p = pow_grows i k in
    let q = pow_step (i + k) in subst (λ n. 2 ^ i ≤ 2 ^ n) (add_suc i k) (ground arith)

times_grows : (a i k : ℕ) → a * 2 ^ i ≤ a * 2 ^ (i + k)
times_grows a i k = mul-le-mul_left a (pow_grows i k)

at_least : (a i : ℕ) → 2 ≤ a → 2 ≤ a * 2 ^ i
at_least a i h = let p = mul-le-mul_left a (pow_positive i) in ground arith

module _ {W : Type 0} (run : Runner W) (base : ℕ) where
  -- How the loop goes from attempt `i` in a world, with the attempts that are left after this one: a
  -- call succeeds, or the last one fails, or the context is done in a wait, or the next one follows.
  pub data Goes : ℕ → ℕ → W → Tried × W → Type 0 where
    succeeds : (left i : ℕ) (w w' : W) → run.fn w ≡ (none, w') → Goes left i w (returned none, w')
    fails :
        (i : ℕ) (w w' : W) (e : Error)
        → run.fn w ≡ (some e, w')
        → Goes 0 i w (returned (some e), w')
    stops :
        (left i : ℕ) (w w' w'' : W) (e c : Error) (d : ℤ)
        → run.fn w ≡ (some e, w')
        → IsBetween (base * 2 ^ i) d
        → run.pause d w' ≡ (some c, w'')
        → Goes (suc left) i w (returned (some c), w'')
    again :
        (left i : ℕ) (w w' w'' : W) (e : Error) (d : ℤ) (x : Tried × W)
        → run.fn w ≡ (some e, w')
        → IsBetween (base * 2 ^ i) d
        → run.pause d w' ≡ (none, w'')
        → Goes left (suc i) w'' x
        → Goes (suc left) i w x

  delay_after_fits :
      (i : ℕ)
      → i < 63
      → base * 2 ^ i < 2 ^ 62
      → delay_after run.wide (pos base) i ≡ pos (base * 2 ^ i)
  unfolding delay_after power bits
  delay_after_fits i h k =
      rw (ltb-true i 63 h, mul64_fits base (2 ^ i) (lt_double (base * 2 ^ i) k))

  -- The wait after an attempt whose delay fits.
  wait_after : (i : ℕ) → W → ℤ
  wait_after i w =
      let delay = delay_after run.wide (pos base) i in
      longer delay (run.jitter (jitter_bound delay) w)

  wait_after-IsBetween :
      (i : ℕ) (w : W)
      → i < 63
      → base * 2 ^ i < 2 ^ 62
      → 2 ≤ base * 2 ^ i
      → ((n : ℕ) (w : W) → 0 < n → run.jitter n w < n)
      → IsBetween (base * 2 ^ i) (wait_after i w)
  unfolding wait_after jitter_bound
  wait_after-IsBetween i w h k l j = rw (delay_after_fits i h k) (
      longer-IsBetween (base * 2 ^ i) (run.jitter (base * 2 ^ i / 2) w) k
        (j (base * 2 ^ i / 2) w (half_positive (base * 2 ^ i) l)))

  jitter_bound_nonzero :
      (i : ℕ)
      → i < 63
      → base * 2 ^ i < 2 ^ 62
      → 2 ≤ base * 2 ^ i
      → (jitter_bound (delay_after run.wide (pos base) i) == 0) ≡ false
  unfolding jitter_bound
  jitter_bound_nonzero i h k l = rw (delay_after_fits i h k) (half_nonzero (base * 2 ^ i) l)

  ended-Goes :
      (i : ℕ) (w : W) (x : Option Error × W)
      → run.fn w ≡ x
      → Goes 0 i w (attempted run (pos base) none i x)
  unfolding attempted after_failed_attempt
  ended-Goes i w (none, w') h = Goes.succeeds 0 i w w' h
  ended-Goes i w (some e, w') h = Goes.fails i w w' e h

  paused-Goes :
      (left i : ℕ) (w w' : W) (e : Error) (d : ℤ) (go : W → Tried × W) (y : Option Error × W)
      → run.fn w ≡ (some e, w')
      → IsBetween (base * 2 ^ i) d
      → run.pause d w' ≡ y
      → ((v : W) → Goes left (suc i) v (go v))
      → Goes (suc left) i w (paused run (pos base) go y)
  unfolding paused
  paused-Goes left i w w' e d go (none, v) h b p g = Goes.again left i w w' v e d (go v) h b p (g v)
  paused-Goes left i w w' e d go (some c, v) h b p g = Goes.stops left i w w' v e c d h b p

  attempted-Goes :
      (left i : ℕ) (w : W) (go : W → Tried × W) (x : Option Error × W)
      → i < 63
      → base * 2 ^ i < 2 ^ 62
      → 2 ≤ base * 2 ^ i
      → ((n : ℕ) (w : W) → 0 < n → run.jitter n w < n)
      → run.fn w ≡ x
      → ((v : W) → Goes left (suc i) v (go v))
      → Goes (suc left) i w (attempted run (pos base) (some go) i x)
  unfolding attempted after_failed_attempt wait_after
  attempted-Goes left i w go (none, w') a b c j h g = Goes.succeeds (suc left) i w w' h
  attempted-Goes left i w go (some e, w') a b c j h g = rw (jitter_bound_nonzero i a b c) (
      paused-Goes left i w w' e (wait_after i w') go (run.pause (wait_after i w') w') h
        (wait_after-IsBetween i w' a b c j) refl g)

  attempt_from-Goes :
      (left i : ℕ) (w : W)
      → 2 ≤ base
      → i + left < 63
      → base * 2 ^ (i + left) < 2 ^ 62
      → ((n : ℕ) (w : W) → 0 < n → run.jitter n w < n)
      → Goes left i w (attempt_from run (pos base) left i w)
  unfolding attempt_from
  attempt_from-Goes zero i w b l h j = ended-Goes i w (run.fn w) refl
  attempt_from-Goes (suc left) i w b l h j =
      attempted-Goes left i w (λ v. attempt_from run (pos base) left (suc i) v) (run.fn w)
        (ground arith) (let p = times_grows base i (suc left) in ground arith) (at_least base i b) j
        refl
        (λ v.
          attempt_from-Goes left (suc i) v b (ground arith)
            (subst (λ n. base * 2 ^ n < 2 ^ 62) (sym (suc_add i left)) h) j)

-- With a first delay of at least 2 nanoseconds and delays below 2 ^ 62 nanoseconds, and random numbers
-- below their bound, RetryWithContext with n + 1 attempts, at most 63, does not panic: it calls the
-- function until a call succeeds, the attempts are used up, or the context is done, gives nil, the
-- last error or the context's error in turn, and waits after attempt i for at least the first delay
-- times 2 ^ i and less than twice that.
pub retry_with_context-Goes :
    {W : Type 0} (run : Runner W) (n base : ℕ) (w : W)
    → 2 ≤ base
    → n < 63
    → base * 2 ^ n < 2 ^ 62
    → ((m : ℕ) (v : W) → 0 < m → run.jitter m v < m)
    → Goes run base n 0 w (retry_with_context run (pos (suc n)) (pos base) w)
unfolding retry_with_context
retry_with_context-Goes run n base w b l h j =
    attempt_from-Goes run base n 0 w b (ground arith)
      (subst (λ m. base * 2 ^ m < 2 ^ 62) (zero_add n) h) j
