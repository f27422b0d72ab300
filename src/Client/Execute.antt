-- ===== src/Client/Execute.antt =====
-- `Execute` of client.go: the checks, the middleware, the call of the engine and the public result.
pub mod Laws
use aigo.Base.{ℕ, ◌-◌, String, Bool, true, false, Option, none, some, List, [], ◌∷◌, if◌then◌else◌}
use aigo.Base.Assoc.{get}
use aigo.Errors.{Error, Outcome, ok, err}
use aigo.Workflow.{Graph, validate}
use aigo.Engine.{Engine, EngineResult, OutputKind, ResultItem, classify_output, is_unknown}
use aigo.Client.{Client, Middleware, is_disabled, engine_not_found, engine_disabled}

-- What a call reads of the world around it: the clock, `ctx.Err()`, and the response headers that a
-- capture in the context has recorded.
pub record Env (W : Type 0) : Type 0 where
  pub now : W → ℕ
  pub ctx_err : W → Option Error
  pub captured : W → List String

-- `Result`. The two lists are the two keys of its `Metadata` map, absent where a list is empty.
pub record Result : Type 0 where
  pub value : String
  pub kind : OutputKind
  pub engine : String
  pub elapsed : ℕ
  pub results : List ResultItem
  pub response_headers : List String

-- The `ProgressEvent`s that `Execute` itself sends. The engine's own polling events are effects of
-- the engine on the world.
pub data Event : Type 0 where
  submitted : Event
  completed : ℕ → Event

-- The outcome, the events sent, and the world after the call.
pub record Executed (W : Type 0) : Type 0 where
  pub outcome : Outcome Result
  pub events : List Event
  pub world : W

module _ {W : Type 0} where
  -- The loop over the middleware: the last one added wraps the engine first.
  unfoldable pub apply_middleware : String → List (Middleware W) → Engine W → Engine W
  apply_middleware name [] e = e
  apply_middleware name (mw ∷ mws) e = mw name (apply_middleware name mws e)

  abbrev refused : Error → W → Executed W
  refused e w = record { outcome = err e; events = []; world = w }

  public_result : Env W → String → W → W → EngineResult → Result
  public_result env name before after r = record {
    value = r.value;
    kind = if is_unknown r.kind then classify_output r.value else r.kind;
    engine = name;
    elapsed = env.now after - env.now before;
    results = r.results;
    response_headers = env.captured after;
  }

  finish : Env W → String → Bool → W → W → Outcome EngineResult → Executed W
  unfolding public_result
  finish env name watching before after (err e) = record {
    outcome = err (Error.wrap "aigo: execute with engine" e);
    events = if watching then Event.submitted ∷ [] else [];
    world = after;
  }
  finish env name watching before after (ok r) = record {
    outcome = ok (public_result env name before after r);
    events =
        if watching
        then Event.submitted ∷ Event.completed (env.now after - env.now before) ∷ []
        else [];
    world = after;
  }

  -- The call of the wrapped engine, between two readings of the clock.
  call : Env W → String → Engine W → Graph → Bool → W → Executed W
  unfolding finish
  call env name actual g watching w =
      let (r, after) = actual.execute g w in finish env name watching w after r

  checked : Env W → Client W → String → Engine W → Graph → Bool → W → Option Error → Executed W
  unfolding call apply_middleware
  checked env c name e g watching w (some invalid) = refused (Error.wrap "aigo" invalid) w
  checked env c name e g watching w none =
      call env name (apply_middleware name c.middleware e) g watching w

  dispatch : Env W → Client W → String → Graph → Bool → W → Option (Engine W) → Executed W
  unfolding checked
  dispatch env c name g watching w none = refused (engine_not_found name) w
  dispatch env c name g watching w (some e) =
      if is_disabled c name
      then refused (engine_disabled name) w
      else checked env c name e g watching w (validate g)

  -- `Execute`; `watching` says whether a progress callback is given.
  unfoldable pub execute : Env W → Client W → String → Graph → Bool → W → Executed W
  unfolding dispatch
  execute env c name g watching w = dispatch env c name g watching w (get c.engines name)
