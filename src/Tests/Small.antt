-- ===== src/Tests/Small.antt =====
-- Errors and polling at concrete values.
use Prim.Native.Nat.{max}
use aigo.Base.{ℕ, ◌*◌, refl, false, none}
use aigo.Base.Int.{pos, of_int}
use aigo.Errors.{ok, Response}
use aigo.Poll.{Config, Source, poll_v2, duration_or, second}
use aigo.Poll.Bounds
use aigo.Poll.Bounds.{Ends}

abbrev unavailable : Response
unavailable = record {
  status_code = 503;
  status = "503 Service Unavailable";
  retry_after = "7";
  body = "busy";
}

-- A task that never ends.
abbrev never : Source ℕ
never = record {
  fetch = λ w.
      (ok (record { result = ""; done = false; percent = of_int (pos 0); preview_url = "" }), w);
  now = λ w. w;
  wait = λ d w. (none, w);
  wide = λ d. 0;
}

abbrev three_attempts : Config
three_attempts = record {
  interval = pos 10;
  max_attempts = pos 3;
  backoff = of_int (pos 2);
  max_interval = pos 15;
}

poll_v2-Ends_example :
    Ends 2
      (max (duration_or (5 * second) (pos 10)) (duration_or (60 * second) (pos 15)))
      (poll_v2 never three_attempts 3 0)
poll_v2-Ends_example = Bounds.poll_v2-Ends never three_attempts 2 0 refl
