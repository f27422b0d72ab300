-- ===== src/Client/Tasks.antt =====
-- `Submit`, `Resume` and `RecoverPending` of client.go, over any task store.
pub mod Recovery
pub mod Once
use aigo.Base.{String, Bool, Option, none, some, List, select, str_eq, if◌then◌else◌, ℕ}
use aigo.Base.Assoc.{get}
use aigo.Errors.{Error, Outcome, ok, err, ◌>>=◌}
use aigo.Workflow.{Graph}
use aigo.Engine.{Engine, EngineResult, OutputKind}
use aigo.TaskStore.{TaskRecord, System, status_pending, status_completed, status_failed}
use aigo.TaskStore.Interface.{TaskStore}
use aigo.Client.{Client, engine_not_found}
use aigo.Client.Execute.{Env, Result, Executed, execute}

abbrev pub store_not_configured : Error
store_not_configured = Error.plain "aigo: task store not configured"

abbrev pub resume_not_supported : String → Error
resume_not_supported name = Error.wrap name (Error.plain "aigo: engine does not support resume")

-- What these calls read of the world besides: the system's answers to the store, a fresh random id,
-- and the text of an error.
pub record TaskEnv (W : Type 0) : Type 0 where
  pub env : Env W
  pub sys : W → System
  pub new_task_id : W → String
  pub text : Error → String

-- The outcome, the world and the store after a call.
pub record Stored (W S A : Type 0) : Type 0 where
  pub outcome : Outcome A
  pub world : W
  pub store : Option S

abbrev is_plain_text : OutputKind → Bool
is_plain_text OutputKind.plain_text = Bool.true
is_plain_text _ = Bool.false

-- The record that `Submit` saves: pending with the remote id for a plain text, else completed.
pub submitted_record : String → ℕ → String → Result → TaskRecord
submitted_record id now name r =
    if is_plain_text r.kind
    then record {
      id = id;
      engine_name = name;
      remote_id = r.value;
      status = status_pending;
      created_at = now;
      updated_at = now;
      result_val = "";
      result_kind = OutputKind.unknown;
      err_msg = "";
    }
    else record {
      id = id;
      engine_name = name;
      remote_id = "";
      status = status_completed;
      created_at = now;
      updated_at = now;
      result_val = r.value;
      result_kind = r.kind;
      err_msg = "";
    }

-- The result that is rebuilt from a record or from a resumed engine.
abbrev pub resumed : String → String → OutputKind → Result
resumed name value kind = record {
  value = value;
  kind = kind;
  engine = name;
  elapsed = 0;
  results = List.[];
  response_headers = List.[];
}

module _ {W : Type 0} (store : TaskStore) (te : TaskEnv W) (c : Client W) where
  task_id_reply : TaskRecord → Option Error → Outcome String
  task_id_reply rec (some e) = err (Error.wrap "aigo: persist task" e)
  task_id_reply rec none = ok (if str_eq rec.status status_pending then rec.id else "")

  persist : TaskRecord → W → store.S → Stored W store.S String
  unfolding task_id_reply
  persist rec w s =
      let (e, s') = store.save (te.sys w) s rec in
      record { outcome = task_id_reply rec e; world = w; store = some s' }

  after_execute : String → Outcome Result → W → store.S → Stored W store.S String
  unfolding persist submitted_record
  after_execute name (err e) w s = record { outcome = err e; world = w; store = some s }
  after_execute name (ok r) w s =
      persist (submitted_record (te.new_task_id w) (te.env.now w) name r) w s

  -- `Submit`; the last argument is the configured store, if any.
  unfoldable pub submit : String → Graph → Bool → W → Option store.S → Stored W store.S String
  unfolding after_execute
  submit name g watching w none = record {
    outcome = err store_not_configured;
    world = w;
    store = none;
  }
  submit name g watching w (some s) =
      let x = execute te.env c name g watching w in after_execute name x.outcome x.world s

  -- The record that `Resume` saves in the end.
  pub concluded : TaskRecord → Outcome EngineResult → W → TaskRecord
  concluded rec (err e) w = record rec {
    status = status_failed;
    updated_at = te.env.now w;
    err_msg = te.text e;
  }
  concluded rec (ok er) w = record rec {
    status = status_completed;
    updated_at = te.env.now w;
    result_val = er.value;
    result_kind = er.kind;
  }

  conclusion : TaskRecord → Outcome EngineResult → Outcome Result
  conclusion rec (err e) = err (Error.wrap "aigo: resume engine" e)
  conclusion rec (ok er) = ok (resumed rec.engine_name er.value er.kind)

  -- The end of `Resume`. An error of the save is lost.
  pub conclude : TaskRecord → Outcome EngineResult → W → store.S → Stored W store.S Result
  unfolding conclusion concluded
  conclude rec o w s = record {
    outcome = conclusion rec o;
    world = w;
    store = some (store.save (te.sys w) s (concluded rec o w)).1;
  }

  call_resumer :
      TaskRecord
      → W
      → store.S
      → Option (String → W → Outcome EngineResult × W)
      → Stored W store.S Result
  unfolding conclude
  call_resumer rec w s none = record {
    outcome = err (resume_not_supported rec.engine_name);
    world = w;
    store = some s;
  }
  call_resumer rec w s (some resume) = let (o, w') = resume rec.remote_id w in conclude rec o w' s

  resume_with : TaskRecord → W → store.S → Option (Engine W) → Stored W store.S Result
  unfolding call_resumer
  resume_with rec w s none = record {
    outcome = err (engine_not_found rec.engine_name);
    world = w;
    store = some s;
  }
  resume_with rec w s (some e) = call_resumer rec w s e.resume

  pub resume_record : W → store.S → Outcome TaskRecord → Stored W store.S Result
  unfolding resume_with
  resume_record w s (err e) = record { outcome = err e; world = w; store = some s }
  resume_record w s (ok rec) =
      if str_eq rec.status status_completed
      then record {
        outcome = ok (resumed rec.engine_name rec.result_val rec.result_kind);
        world = w;
        store = some s;
      }
      else if str_eq rec.status status_failed
      then record {
        outcome = err (Error.wrap rec.err_msg (Error.plain "aigo: task previously failed"));
        world = w;
        store = some s;
      }
      else resume_with rec w s (get c.engines rec.engine_name)

  -- `Resume`
  unfoldable pub resume : String → W → Option store.S → Stored W store.S Result
  unfolding resume_record
  resume id w none = record { outcome = err store_not_configured; world = w; store = none }
  resume id w (some s) = resume_record w s (store.load (te.sys w) s id)

  -- `RecoverPending`
  unfoldable pub recover_pending : W → Option store.S → Outcome (List TaskRecord)
  recover_pending w none = err store_not_configured
  recover_pending w (some s) = store.all (te.sys w) s >>= λ rs.
      ok (select (λ (r : TaskRecord). str_eq r.status status_pending) rs)
