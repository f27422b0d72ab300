-- ===== src/Tests/Retries.antt =====
-- Retries of a function at concrete delays.
use aigo.Base.{ℕ, suc, none, some, ltb, ◌≡◌, refl, arith, if◌then◌else◌}
use aigo.Base.Int.{pos}
use aigo.Base.Number.{power, mul64}
use aigo.Errors.{Error}
use aigo.Material.Retry.{
  returned, panicked, Runner, bits, delay_after, jitter_bound, longer, paused, after_failed_attempt,
  attempted, attempt_from, retry_with_context,
}
use aigo.Material.Retry.Backoff

-- A function that fails twice, in a world that counts the calls.
abbrev third_time : Runner ℕ
third_time = record {
  fn = λ n. (if ltb n 2 then some (Error.plain "busy") else none, suc n);
  pause = λ d n. (none, n);
  jitter = λ m n. 0;
  wide = λ i. 0;
}

succeeds_at_last : retry_with_context third_time (pos 3) (pos 1000) 0 ≡ (returned none, 3)
unfolding retry_with_context attempt_from attempted after_failed_attempt paused delay_after
    jitter_bound longer power bits mul64
succeeds_at_last = refl

-- A base of one nanosecond has no random part.
no_random_part : retry_with_context third_time (pos 3) (pos 1) 0 ≡ (panicked, 1)
unfolding retry_with_context attempt_from attempted after_failed_attempt paused delay_after
    jitter_bound longer power bits mul64
no_random_part = refl

retry_with_context-Goes_example :
    Backoff.Goes third_time 1000 2 0 0 (retry_with_context third_time (pos 3) (pos 1000) 0)
retry_with_context-Goes_example =
    Backoff.retry_with_context-Goes third_time 2 1000 0 (omega arith) (omega arith) (omega arith)
      (λ m v h. h)
