-- ===== src/Poll/Bounds.antt =====
-- The polling loop ends within `MaxAttempts`, and no wait is longer than the configured bounds.
use Prim.Native.Nat.{max}
use aigo.Base.{
  ℕ, zero, suc, ◌+◌, ◌*◌, ◌≤◌, ◌<◌, String, ◌≡◌, refl, sym, ap, subst, Bool, true, false, Option,
  none, some, All, length, arith, if◌then◌else◌,
}
use aigo.Base.Int.{ℤ, pos, Float64}
use aigo.Errors.{Error, Outcome, ok, err}
use aigo.Poll.{
  FetchResult, ProgressInfo, Config, Source, Polled, duration_or, next_interval, attempts_used,
  after_wait, ended, exceeded, waited, round, loop, poll_v2, second,
}

module _ {W : Type 0} where
  -- At most `bound` waits, each at most `longest`, and a progress report for each wait.
  pub record IsBounded (bound longest : ℕ) (p : Polled W) : Type 0 where
    pub few : length p.waits ≤ bound
    pub short : All (λ d. d ≤ longest) p.waits
    pub told : length p.reports ≡ length p.waits

  -- The loop has given an answer, and the answer is bounded.
  abbrev pub Ends : ℕ → ℕ → Option (Polled W) → Type 0
  Ends bound longest o = (p : Polled W) × (o ≡ some p) × IsBounded bound longest p

  ended-Ends : (bound longest : ℕ) (o : Outcome String) (w : W) → Ends bound longest (ended o w)
  unfolding ended
  ended-Ends bound longest o w = (_, refl, record { few = omega arith; short = tt; told = refl })

  if-Ends :
      (bound longest : ℕ) (b : Bool) (x y : Option (Polled W))
      → Ends bound longest x
      → (b ≡ false → Ends bound longest y)
      → Ends bound longest (if b then x else y)
  if-Ends bound longest true x y h k = h
  if-Ends bound longest false x y h k = k refl

  after_wait-Ends :
      (bound longest cur : ℕ) (info : ProgressInfo) (o : Option (Polled W))
      → cur ≤ longest
      → Ends bound longest o
      → Ends (suc bound) longest (after_wait cur info o)
  unfolding after_wait
  after_wait-Ends bound longest cur info none h (p, e, b) = absurd (ground arith)
  after_wait-Ends bound longest cur info (some q) h (p, e, b) =
      let eq : q ≡ p = cc in
      (
        _,
        refl,
        rw eq (record { few = omega (arith, b.few); short = (h, b.short); told = ap suc b.told }),
      )

next_interval-le :
    (wide : ℕ → ℕ) (b : Float64) (limit cur longest : ℕ)
    → limit ≤ longest
    → cur ≤ longest
    → next_interval wide b limit cur ≤ longest
unfolding next_interval
next_interval-le wide b limit cur longest h k = ground arith

all_used :
    {m : ℕ} (attempt : ℕ)
    → attempts_used (pos m) attempt ≡ false
    → 0 < attempt
    → attempt + 0 ≡ m
    → ⊥
unfolding attempts_used
all_used attempt unused a h = ground arith

module _ {W : Type 0} (src : Source W) (m : ℕ) (backoff : Float64) (limit start longest : ℕ)
    (fits : limit ≤ longest) where
  waited-Ends :
      (bound cur : ℕ) (info : ProgressInfo) (go : W → Option (Polled W)) (x : Option Error × W)
      → cur ≤ longest
      → ((w : W) → Ends bound longest (go w))
      → Ends (suc bound) longest (waited src (pos m) backoff limit start cur info go x)
  unfolding waited
  waited-Ends bound cur info go (some e, w) h k =
      after_wait-Ends bound longest cur info _ h (ended-Ends bound longest (err e) w)
  waited-Ends bound cur info go (none, w) h k =
      after_wait-Ends bound longest cur info (go w) h (k w)

  round-Ends :
      (bound attempt cur : ℕ) (go : W → Option (Polled W)) (x : Outcome FetchResult × W)
      → attempt + bound ≡ m
      → 0 < attempt
      → cur ≤ longest
      → ((k : ℕ) → suc k ≡ bound → (w : W) → Ends k longest (go w))
      → Ends bound longest (round src (pos m) backoff limit start attempt cur go x)
  unfolding round
  round-Ends bound attempt cur go (err e, w) s a h k = ended-Ends bound longest (err e) w
  round-Ends zero attempt cur go (ok fr, w) s a h k =
      if-Ends zero longest fr.done _ _ (ended-Ends zero longest (ok fr.result) w) (λ _.
        if-Ends zero longest (attempts_used (pos m) attempt) _ _
          (ended-Ends zero longest (err exceeded) w)
          (λ unused. absurd (all_used attempt unused a s)))
  round-Ends (suc bound) attempt cur go (ok fr, w) s a h k =
      if-Ends (suc bound) longest fr.done _ _ (ended-Ends (suc bound) longest (ok fr.result) w)
        (λ _.
          if-Ends (suc bound) longest (attempts_used (pos m) attempt) _ _
            (ended-Ends (suc bound) longest (err exceeded) w)
            (λ _. waited-Ends bound cur _ go _ h (k bound refl)))

  loop-Ends :
      (fuel bound attempt cur : ℕ) (w : W)
      → attempt + bound ≡ m
      → bound < fuel
      → 0 < attempt
      → cur ≤ longest
      → Ends bound longest (loop src (pos m) backoff limit start fuel attempt cur w)
  unfolding loop
  loop-Ends zero bound attempt cur w s f a h = absurd (omega arith)
  loop-Ends (suc fuel) bound attempt cur w s f a h =
      round-Ends bound attempt cur _ (src.fetch w) s a h (λ k e w'.
        loop-Ends fuel k (attempt + 1) (next_interval src.wide backoff limit cur) w' (omega arith)
          (omega arith) (omega arith) (next_interval-le src.wide backoff limit cur longest fits h))

-- With `MaxAttempts` set to `n + 1`, `PollV2` ends, also if the task never does: fuel `n + 1`
-- suffices, at most `n` waits are begun, each with one progress report, and no wait is longer than
-- the larger of the first interval and `MaxInterval`.
pub poll_v2-Ends :
    {W : Type 0} (src : Source W) (cfg : Config) (n : ℕ) (w : W)
    → cfg.max_attempts ≡ pos (suc n)
    → Ends n
        (max (duration_or (5 * second) cfg.interval) (duration_or (60 * second) cfg.max_interval))
        (poll_v2 src cfg (suc n) w)
unfolding poll_v2
poll_v2-Ends src cfg n w h =
    let interval = duration_or (5 * second) cfg.interval in
    let limit = duration_or (60 * second) cfg.max_interval in
    subst
      (λ (k : ℤ).
        Ends n (max interval limit) (loop src k cfg.backoff limit (src.now w) (suc n) 1 interval w))
      (sym h)
      (loop-Ends src (suc n) cfg.backoff limit (src.now w) (max interval limit) (omega arith)
        (suc n) n 1 interval w (omega arith) (omega arith) (omega arith) (omega arith))
