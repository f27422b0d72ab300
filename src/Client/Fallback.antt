-- ===== src/Client/Fallback.antt =====
-- `ExecuteWithFallback` of client.go: engines are tried in order until one succeeds.
pub mod Attempts
use Prim.Native.String.{String}
use aigo.Base.{Bool, Option, none, some, List, [], ◌∷◌, ◌++◌}
use aigo.Errors.{Error, Outcome, ok, err}
use aigo.Workflow.{Graph}
use aigo.Client.{Client}
use aigo.Client.Execute.{Env, Result, Executed, execute}

-- `FallbackError`
pub record FallbackError : Type 0 where
  pub engine : String
  pub error : Error

-- `FallbackResult` with the error returned beside it: the engine and its output, or the error; the
-- failures before it; and the world after the call.
pub record Fallback (W : Type 0) : Type 0 where
  pub outcome : Outcome (String × Result)
  pub skipped : List FallbackError
  pub world : W

abbrev pub empty_engine_list : Error
empty_engine_list = Error.plain "aigo: empty engine list"

abbrev pub all_engines_failed : Error
all_engines_failed = Error.plain "aigo: all engines failed"

module _ {W : Type 0} where
  -- After one engine: its result ends the loop, its error is noted and the loop goes on.
  settle :
      String
      → List FallbackError
      → W
      → (List FallbackError → Fallback W)
      → Outcome Result
      → Fallback W
  settle name skipped w next (ok r) = record {
    outcome = ok (name, r);
    skipped = skipped;
    world = w;
  }
  settle name skipped w next (err e) = next (skipped ++ record { engine = name; error = e } ∷ [])

  -- The test of the context before each engine.
  unless_cancelled : List FallbackError → W → Fallback W → Option Error → Fallback W
  unless_cancelled skipped w go none = go
  unless_cancelled skipped w go (some e) = record {
    outcome = err (Error.wrap "aigo: context cancelled before engine" e);
    skipped = skipped;
    world = w;
  }

module _ {W : Type 0} (env : Env W) (c : Client W) (g : Graph) (watching : Bool) where
  -- The loop, with the failures so far.
  try_engines : List String → List FallbackError → W → Fallback W
  unfolding settle unless_cancelled
  try_engines [] skipped w = record {
    outcome = err all_engines_failed;
    skipped = skipped;
    world = w;
  }
  try_engines (name ∷ names) skipped w =
      let x = execute env c name g watching w in
      let go = settle name skipped x.world (λ sk. try_engines names sk x.world) x.outcome in
      unless_cancelled skipped w go (env.ctx_err w)

  -- `ExecuteWithFallback`
  unfoldable pub execute_with_fallback : List String → W → Fallback W
  unfolding try_engines
  execute_with_fallback [] w = record { outcome = err empty_engine_list; skipped = []; world = w }
  execute_with_fallback (name ∷ names) w = try_engines (name ∷ names) [] w
