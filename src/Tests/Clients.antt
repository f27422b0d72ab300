-- ===== src/Tests/Clients.antt =====
-- The client's calls on a client with one failing and one working engine.
use aigo.Base.{ℕ, ◌≡◌, refl, true, false, none, some, List, [], ◌∷◌}
use aigo.Base.Assoc.{get, has}
use aigo.Base.Text.{is_blank, is_space}
use aigo.Errors.{Error, ok, err}
use aigo.Workflow.{validate}
use aigo.Engine.{OutputKind}
use aigo.Client.{Middleware, new_client, is_disabled, is_enabled, engine_names, available_for}
use aigo.Client.Execute.{Result, execute}
use aigo.Client.Execute.Laws
use aigo.Client.Execute.Laws.{is_valid, Answer}
use aigo.Client.Fallback.{execute_with_fallback}
use aigo.Client.Fallback.Attempts
use aigo.Client.Fallback.Attempts.{Explained}
use aigo.Client.Registration.{EngineEntry}
use aigo.Client.Lifecycle
use aigo.Client.Lifecycle.{Status, Call, run, track, status}
use aigo.TaskStore.{File, save, read_all, load, find_record}
use aigo.TaskStore.Interface.{file_task_store}
use aigo.Client.Tasks.{submit, resume, resumed}
use aigo.Client.Tasks.Recovery
use aigo.Client.Tasks.Once
use aigo.Client.Tasks.Once.{replay}
use aigo.Tests.Data.{one_node, good, bad, env, client, task_env, task, finish_task, resumed_answer}

program : Unit {0}
unfolding execute submit resume execute_with_fallback validate is_blank is_space read_all load
    find_record get has is_disabled is_enabled engine_names available_for run status save
program = tt

abbrev good_result : Result
good_result = record {
  value = "remote-7";
  kind = OutputKind.plain_text;
  engine = "good";
  elapsed = 2;
  results = [];
  response_headers = [];
}

execute-good : (execute env client "good" one_node false 5).outcome ≡ ok good_result
unfolding program
execute-good = refl

fallback-good :
    (execute_with_fallback env client one_node false ("bad" ∷ "good" ∷ []) 5).outcome
    ≡ ok ("good", good_result)
unfolding program
fallback-good = refl

execute_with_fallback-Explained_example :
    Explained env client one_node false 5
      ("bad" ∷ "good" ∷ [])
      []
      (execute_with_fallback env client one_node false ("bad" ∷ "good" ∷ []) 5)
execute_with_fallback-Explained_example =
    Attempts.execute_with_fallback-Explained env client one_node false "bad" ("good" ∷ []) 5

execute-refused_example :
    ((e : Error) × ((execute env client "old" one_node true 5).outcome ≡ err e))
    × ((execute env client "old" one_node true 5).events ≡ [])
    × ((execute env client "old" one_node true 5).world ≡ 5)
unfolding program
execute-refused_example = Laws.execute-refused env client "old" one_node true 5 refl

execute-ok_example :
    (is_enabled client "good" ≡ true)
    × (validate one_node ≡ none)
    × (good_result.engine ≡ "good")
    × Answer env client "good" one_node true 5 good_result
unfolding program
execute-ok_example = Laws.execute-ok env client "good" one_node true 5 good_result refl

abbrev tagged : Middleware ℕ
tagged name e = record e { capabilities = none }

abbrev some_calls : List (Call ℕ)
some_calls =
    Call.register "x" good
    ∷ Call.disable "x"
    ∷ Call.register "y" bad
    ∷ Call.unregister "x"
    ∷ Call.register "x" bad
    ∷ []

status-run_example : status (run new_client some_calls) "x" ≡ track "x" Status.absent some_calls
status-run_example = Lifecycle.status-run some_calls "x"

resume-submit_example :
    ((submit file_task_store task_env client "good" one_node false 5 (some File.missing)).outcome
      ≡ ok "t-1")
    × ((resume file_task_store task_env client "t-1" 20
          (submit file_task_store task_env client "good" one_node false 5
            (some File.missing)).store).outcome
        ≡ ok (resumed "good" "https://a/b.png" OutputKind.url))
unfolding program
resume-submit_example =
    Recovery.resume-submit file_task_store task_env client "good" one_node false 5 20 21
      File.missing (execute env client "good" one_node false 5) good_result good finish_task
      resumed_answer refl refl refl refl refl refl refl refl

abbrev pending_file : File
pending_file = File.records (task "t-1" "pending" ∷ [])

resume-resume_example :
    resume file_task_store task_env client "t-1" 30
      (resume file_task_store task_env client "t-1" 20 (some pending_file)).store
    ≡ record {
      outcome = replay file_task_store task_env client "good" (ok resumed_answer);
      world = 30;
      store = (resume file_task_store task_env client "t-1" 20 (some pending_file)).store;
    }
unfolding program
resume-resume_example =
    Once.resume-resume file_task_store task_env client "t-1" 20 21 30 pending_file
      (task "t-1" "pending") good finish_task (ok resumed_answer) refl refl refl refl refl refl refl

abbrev entries : List (EngineEntry ℕ)
entries =
    record { name = "a"; engine = some good; env_vars = [] }
    ∷ record { name = "b"; engine = some bad; env_vars = "KEY" ∷ [] }
    ∷ []
