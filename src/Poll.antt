-- ===== src/Poll.antt =====
-- engine/poll: the polling loop (poll.go) and the normalised task status (status.go).
pub mod Bounds
pub mod Status
use aigo.Base.{
  ℕ, zero, suc, ◌+◌, ◌-◌, ◌*◌, ◌/◌, ◌^◌, String, Bool, true, false, ◌&&◌, Option, none, some, List,
  [], ◌∷◌, ltb, leb, if◌then◌else◌,
}
use aigo.Base.Int.{ℤ, pos, negsuc, Float64, is_pos, leb_ℤ}
use aigo.Errors.{Error, Outcome, ok, err}

-- `FetchResult`
pub record FetchResult : Type 0 where
  pub result : String
  pub done : Bool
  pub percent : Float64
  pub preview_url : String

-- `ProgressInfo`
pub record ProgressInfo : Type 0 where
  pub attempt : ℕ
  pub elapsed : ℕ
  pub percent : Float64
  pub preview_url : String

-- `Config`; durations are nanoseconds. The callback is an effect, recorded in the result's log.
pub record Config : Type 0 where
  pub interval : ℤ
  pub max_attempts : ℤ
  pub backoff : Float64
  pub max_interval : ℤ

-- What the loop uses of the world: `fetch`, the clock, and the `select` between the timer and
-- `ctx.Done()`, which gives the context's error if that comes first; and what Go makes of a float that
-- is no duration.
pub record Source (W : Type 0) : Type 0 where
  pub fetch : W → Outcome FetchResult × W
  pub now : W → ℕ
  pub wait : ℕ → W → Option Error × W
  pub wide : ℕ → ℕ

-- The outcome, the waits that were begun, the progress reports, and the world after the call.
pub record Polled (W : Type 0) : Type 0 where
  pub outcome : Outcome String
  pub waits : List ℕ
  pub reports : List ProgressInfo
  pub world : W

-- A `time.Second`, in nanoseconds.
abbrev pub second : ℕ
second = 1_000_000_000

-- A duration, or its default if it is not positive.
unfoldable pub duration_or : ℕ → ℤ → ℕ
duration_or d (pos n) = if ltb 0 n then n else d
duration_or d (negsuc n) = d

-- `backoff > 1.0`
unfoldable pub grows : Float64 → Bool
grows b = elim b.num [ pos n ↦ ltb (2 ^ b.shift) n | negsuc n ↦ false ]

-- `time.Duration(float64(cur) * backoff)` for a backoff above 1, with an exact product. Go leaves open
-- what becomes of a product that no `int64` holds: it is the parameter's value, with 0 for a negative
-- duration, whose timer fires at once like that of 0.
unfoldable pub scale : (ℕ → ℕ) → Float64 → ℕ → ℕ
scale wide b cur = elim b.num [
  | pos n ↦ let d = (cur * n) / 2 ^ b.shift in if ltb d (2 ^ 63) then d else wide d
  | negsuc n ↦ 0
]

-- The growth of the interval at the end of a round.
unfoldable pub next_interval : (ℕ → ℕ) → Float64 → ℕ → ℕ → ℕ
unfolding grows scale
next_interval wide b limit cur =
    if grows b then (if ltb limit (scale wide b cur) then limit else scale wide b cur) else cur

-- `cfg.MaxAttempts > 0 && attempt >= cfg.MaxAttempts`
unfoldable pub attempts_used : ℤ → ℕ → Bool
attempts_used (pos m) attempt = ltb 0 m && leb m attempt
attempts_used (negsuc m) attempt = false

abbrev pub exceeded : Error
exceeded = Error.plain "poll: exceeded attempts"

report : ℕ → ℕ → FetchResult → ProgressInfo
report attempt elapsed fr = record {
  attempt = attempt;
  elapsed = elapsed;
  percent = fr.percent;
  preview_url = fr.preview_url;
}

-- A round that ended in a wait, before the rest of the loop.
after_wait : {W : Type 0} → ℕ → ProgressInfo → Option (Polled W) → Option (Polled W)
after_wait cur info none = none
after_wait cur info (some p) = some (record p { waits = cur ∷ p.waits; reports = info ∷ p.reports })

ended : {W : Type 0} → Outcome String → W → Option (Polled W)
ended o w = some (record { outcome = o; waits = []; reports = []; world = w })

module _ {W : Type 0} (src : Source W) (max_attempts : ℤ) (backoff : Float64) (limit : ℕ)
    (start : ℕ) where
  -- The `select`: the context's error ends the loop, the timer lets it go on.
  waited : ℕ → ProgressInfo → (W → Option (Polled W)) → Option Error × W → Option (Polled W)
  unfolding after_wait ended
  waited cur info go (some e, w) = after_wait cur info (ended (err e) w)
  waited cur info go (none, w) = after_wait cur info (go w)

  -- One round, from the answer of `fetch`.
  round : ℕ → ℕ → (W → Option (Polled W)) → Outcome FetchResult × W → Option (Polled W)
  unfolding waited ended report
  round attempt cur go (err e, w) = ended (err e) w
  round attempt cur go (ok fr, w) =
      if fr.done
      then ended (ok fr.result) w
      else if attempts_used max_attempts attempt
      then ended (err exceeded) w
      else waited cur (report attempt (src.now w - start) fr) go (src.wait cur w)

  -- The loop of `PollV2`; `none` means that the fuel ran out.
  loop : ℕ → ℕ → ℕ → W → Option (Polled W)
  unfolding round
  loop zero attempt cur w = none
  loop (suc fuel) attempt cur w =
      round attempt cur
        (λ w'. loop fuel (attempt + 1) (next_interval src.wide backoff limit cur) w') (src.fetch w)

-- `PollV2`
unfoldable pub poll_v2 : {W : Type 0} → Source W → Config → ℕ → W → Option (Polled W)
unfolding loop
poll_v2 src cfg fuel w =
    loop src cfg.max_attempts cfg.backoff (duration_or (60 * second) cfg.max_interval) (src.now w)
      fuel 1 (duration_or (5 * second) cfg.interval) w
