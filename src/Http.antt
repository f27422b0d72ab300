-- ===== src/Http.antt =====
-- engine/httpx/retry.go and ratelimit.go: the transports that retry and that limit the rate.
pub mod Returns
use aigo.Base.{
  ℕ, zero, suc, ◌+◌, ◌*◌, ◌/◌, String, Bool, true, false, not, ◌||◌, Option, none, some, List, [],
  ◌∷◌, some_of, ltb, leb, ◌==◌, str_eq, if◌then◌else◌,
}
use aigo.Base.Int.{ℤ, pos, negsuc, is_pos}
use aigo.Base.Number.{atoi, mul64}
use aigo.Errors.{Error, Outcome, ok, err, Dates, delay_of, second}

-- What is read of an `http.Response`, and whether its body was closed.
pub record HttpResponse : Type 0 where
  pub status_code : ℕ
  pub retry_after : String
  pub closed : Bool

-- What a transport returns. `rand.Int63n` panics if its argument is not positive.
pub data Trip : Type 0 where
  returned : Outcome HttpResponse → Trip
  panicked : Trip

-- The base transport, the random part of a delay, and the `select` between the timer and the context,
-- which gives the context's error if that comes first.
pub record Network (W : Type 0) : Type 0 where
  pub round_trip : W → Outcome HttpResponse × W
  pub jitter : ℕ → W → ℕ
  pub wait : ℤ → W → Option Error × W
  pub dates : Dates

-- `RetryTransport`. Durations are nanoseconds.
pub record RetryTransport : Type 0 where
  pub max_retries : ℤ
  pub base_delay : ℤ
  pub max_delay : ℤ

-- `isIdempotent`
unfoldable pub is_idempotent : String → Bool
is_idempotent method = some_of (str_eq method) ("GET" ∷ "HEAD" ∷ "OPTIONS" ∷ "TRACE" ∷ [])

-- `shouldRetry`
unfoldable pub should_retry : ℕ → Bool
should_retry status = status == 429 || leb 500 status

-- `parseRetryAfterHeader`
unfoldable pub parse_retry_after_header : Dates → String → ℤ
unfolding delay_of
parse_retry_after_header dates val =
    if str_eq val "" then pos 0 else delay_of (atoi val) (dates val)

-- The wait that the last response asks for.
asked_wait : Dates → Outcome HttpResponse → ℤ
asked_wait dates (err e) = pos 0
asked_wait dates (ok r) = parse_retry_after_header dates r.retry_after

-- `int64(delay) / 2`, 0 if the delay is not positive.
half_of : ℤ → ℕ
half_of (pos n) = n / 2
half_of (negsuc n) = 0

-- `delay + jitter`
delayed : ℤ → ℕ → ℤ
delayed (pos n) j = mul64 (n + j) 1
delayed (negsuc n) j = negsuc n

greater : ℤ → ℤ → Bool
greater (pos a) (pos b) = ltb b a
greater (pos a) (negsuc b) = true
greater (negsuc a) b = false

-- `delay *= 2`, and the cap.
grown_delay : ℤ → ℤ → ℤ
unfolding greater
grown_delay max (pos n) = let twice = mul64 n 2 in if greater twice max then max else twice
grown_delay max (negsuc n) = negsuc n

module _ {W : Type 0} (net : Network W) (max : ℤ) where
  -- The wait before the next attempt.
  next_wait : ℤ → Outcome HttpResponse → W → ℤ
  unfolding asked_wait delayed half_of
  next_wait delay last w =
      let asked = asked_wait net.dates last in
      if is_pos asked then asked else delayed delay (net.jitter (half_of delay) w)

  after_pause : (W → Trip × W) → Option Error × W → Trip × W
  after_pause go (some e, w) = (returned (err e), w)
  after_pause go (none, w) = go w

  -- After an attempt that is to be retried: the next one, if there is one left.
  retry_after_trip : Option (W → Trip × W) → ℤ → Outcome HttpResponse → W → Trip × W
  unfolding after_pause next_wait half_of
  retry_after_trip none delay last w = (returned last, w)
  retry_after_trip (some go) delay last w =
      let next = after_pause go (net.wait (next_wait delay last w) w) in
      if half_of delay == 0 then (panicked, w) else next

  -- An error is retried; a response that is to be retried is closed.
  after_trip : Option (W → Trip × W) → ℤ → Outcome HttpResponse × W → Trip × W
  unfolding retry_after_trip
  after_trip go delay (err e, w) = retry_after_trip go delay (err e) w
  after_trip go delay (ok r, w) =
      let again = retry_after_trip go delay (ok (record r { closed = true })) w in
      if should_retry r.status_code then again else (returned (ok r), w)

  -- The loop, with the attempts that are left after this one.
  trip_loop : ℕ → ℤ → W → Trip × W
  unfolding after_trip grown_delay
  trip_loop zero delay w = after_trip none delay (net.round_trip w)
  trip_loop (suc left) delay w =
      after_trip (some (λ w'. trip_loop left (grown_delay max delay) w')) delay (net.round_trip w)

or_positive : ℤ → ℕ → ℤ
or_positive n def = if is_pos n then n else pos def

to_count : ℤ → ℕ
to_count (pos n) = n
to_count (negsuc n) = 0

once : {W : Type 0} → Outcome HttpResponse × W → Trip × W
once (o, w) = (returned o, w)

-- `RoundTrip` of the retrying transport, with its defaults.
unfoldable pub retry_round_trip : {W : Type 0} → Network W → RetryTransport → String → W → Trip × W
unfolding trip_loop or_positive to_count once
retry_round_trip net t method w =
    let retried =
      trip_loop net (or_positive t.max_delay (30 * second)) (to_count (or_positive t.max_retries 3))
        (or_positive t.base_delay second) w in
    if is_idempotent method then retried else once (net.round_trip w)

-- The wait for the limiter, and the request after it.
after_limit : {W : Type 0} → Network W → Option Error × W → Outcome HttpResponse × W
after_limit net (some e, w) = (err e, w)
after_limit net (none, w) = net.round_trip w

-- `RoundTrip` of the limiting transport; `limiter` is the wait of the limiter, if there is one.
unfoldable pub limited_round_trip :
    {W : Type 0} → Network W → Option (W → Option Error × W) → W → Outcome HttpResponse × W
unfolding after_limit
limited_round_trip net none w = net.round_trip w
limited_round_trip net (some wait) w = after_limit net (wait w)
