-- ===== src/Http/Returns.antt =====
-- engine/httpx/retry.go: what the retrying transport returns.
use aigo.Base.{
  ℕ, zero, suc, ◌*◌, ◌<◌, ◌≤◌, ◌^◌, ◌≡◌, refl, String, true, false, ◌⊎◌, Option, none, some, ◌==◌,
  Bool-cases, inl, inr, arith,
}
use aigo.Base.Int.{ℤ, pos, negsuc, is_pos}
use aigo.Base.Number.{mul64}
use aigo.Errors.{Error, Outcome, ok, err, second}
use aigo.Http.{
  HttpResponse, Trip, returned, Network, RetryTransport, should_retry, is_idempotent, half_of,
  grown_delay, greater, after_pause, retry_after_trip, after_trip, trip_loop, or_positive,
  retry_round_trip,
}

-- A delay that can be halved and doubled.
abbrev pub IsDelay : ℤ → Type 0
IsDelay (pos n) = (2 ≤ n) × (n < 2 ^ 62)
IsDelay (negsuc n) = ⊥

grown_delay-IsDelay :
    (max delay : ℤ) → IsDelay max → IsDelay delay → IsDelay (grown_delay max delay)
unfolding grown_delay greater mul64
grown_delay-IsDelay (pos m) (pos n) h k = ground arith
grown_delay-IsDelay (pos m) (negsuc n) h k = k
grown_delay-IsDelay (negsuc m) delay h k = absurd h

-- A response that needs no retry, a closed response of the last attempt, or an error; never a panic.
pub data IsAnswer : Trip → Type 0 where
  accepted : (r : HttpResponse) → should_retry r.status_code ≡ false → IsAnswer (returned (ok r))
  used_up :
      (r : HttpResponse)
      → should_retry r.status_code ≡ true
      → r.closed ≡ true
      → IsAnswer (returned (ok r))
  failed : (e : Error) → IsAnswer (returned (err e))

half_of-IsDelay : (delay : ℤ) → IsDelay delay → (half_of delay == 0) ≡ false
unfolding half_of
half_of-IsDelay (pos n) h = ground arith
half_of-IsDelay (negsuc n) h = absurd h

module _ {W : Type 0} (net : Network W) (max : ℤ) where
  after_pause-IsAnswer :
      (go : W → Trip × W) (x : Option Error × W)
      → ((w : W) → IsAnswer (go w).0)
      → IsAnswer (after_pause net max go x).0
  unfolding after_pause
  after_pause-IsAnswer go (some e, w) h = IsAnswer.failed e
  after_pause-IsAnswer go (none, w) h = h w

  -- The attempts that follow, if there are any, give answers.
  Continues : Option (W → Trip × W) → Type 0
  Continues none = Unit
  Continues (some go) = (w : W) → IsAnswer (go w).0

  retry_after_trip-IsAnswer :
      (go : Option (W → Trip × W)) (delay : ℤ) (last : Outcome HttpResponse) (w : W)
      → Continues go
      → IsDelay delay
      → IsAnswer (returned last)
      → IsAnswer (retry_after_trip net max go delay last w).0
  unfolding retry_after_trip Continues
  retry_after_trip-IsAnswer none delay last w h k l = l
  retry_after_trip-IsAnswer (some go) delay last w h k l =
      rw (half_of-IsDelay delay k) (after_pause-IsAnswer go _ h)

  after_trip-IsAnswer :
      (go : Option (W → Trip × W)) (delay : ℤ) (x : Outcome HttpResponse × W)
      → Continues go
      → IsDelay delay
      → IsAnswer (after_trip net max go delay x).0
  unfolding after_trip
  after_trip-IsAnswer go delay (err e, w) h k =
      retry_after_trip-IsAnswer go delay (err e) w h k (IsAnswer.failed e)
  after_trip-IsAnswer go delay (ok r, w) h k = elim (Bool-cases (should_retry r.status_code)) [
    | inl e ↦ rw e (
        retry_after_trip-IsAnswer go delay (ok (record r { closed = true })) w h k
          (IsAnswer.used_up (record r { closed = true }) e refl))
    | inr e ↦ rw e (IsAnswer.accepted r e)
  ]

  trip_loop-IsAnswer :
      (left : ℕ) (delay : ℤ) (w : W)
      → IsDelay max
      → IsDelay delay
      → IsAnswer (trip_loop net max left delay w).0
  unfolding trip_loop Continues
  trip_loop-IsAnswer zero delay w m d = after_trip-IsAnswer none delay (net.round_trip w) tt d
  trip_loop-IsAnswer (suc left) delay w m d =
      after_trip-IsAnswer (some (λ w'. trip_loop net max left (grown_delay max delay) w')) delay
        (net.round_trip w)
        (λ w'.
          trip_loop-IsAnswer left (grown_delay max delay) w' m (grown_delay-IsDelay max delay m d))
        d

IsSetDelay : ℤ → Type 0
IsSetDelay d = IsDelay d ⊎ (is_pos d ≡ false)

or_positive-IsDelay :
    (d : ℤ) (def : ℕ) → IsSetDelay d → IsDelay (pos def) → IsDelay (or_positive d def)
unfolding or_positive IsSetDelay
or_positive-IsDelay (pos n) def (inl h) k = ground arith
or_positive-IsDelay (pos n) def (inr h) k = rw h k
or_positive-IsDelay (negsuc n) def h k = k

-- For an idempotent method, with delays that are not set or lie between 2 nanoseconds and 2 ^ 62, the
-- retrying transport ends without a panic, and gives a response that needs no retry, or the closed
-- response of the last attempt, or an error.
pub retry_round_trip-IsAnswer :
    {W : Type 0} (net : Network W) (t : RetryTransport) (method : String) (w : W)
    → is_idempotent method ≡ true
    → IsDelay t.base_delay ⊎ (is_pos t.base_delay ≡ false)
    → IsDelay t.max_delay ⊎ (is_pos t.max_delay ≡ false)
    → IsAnswer (retry_round_trip net t method w).0
unfolding retry_round_trip IsSetDelay
retry_round_trip-IsAnswer net t method w m base max = rw m (
    trip_loop-IsAnswer net _ _ _ w
      (or_positive-IsDelay t.max_delay (30 * second) max (ground arith))
      (or_positive-IsDelay t.base_delay second base (ground arith)))
