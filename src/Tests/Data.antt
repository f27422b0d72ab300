-- ===== src/Tests/Data.antt =====
-- The world of the tests is a clock; their engines answer at once.
use aigo.Base.{ℕ, ◌+◌, String, true, false, none, some, [], ◌∷◌}
use aigo.Base.Int.{pos}
use aigo.Errors.{Error, Outcome, ok, err}
use aigo.Workflow.{Value, Values, Node, Graph}
use aigo.Engine.{Engine, EngineResult, OutputKind, Capability}
use aigo.TaskStore.{TaskRecord, File, System}
use aigo.Client.{Client}
use aigo.Client.Execute.{Env}
use aigo.Client.Tasks.{TaskEnv}

abbrev pub text_node : String → Node
text_node s = record { class_type = "CLIPTextEncode"; inputs = ("text", Value.str s) ∷ [] }

abbrev pub link_node : String → Node
link_node id = record {
  class_type = "CLIPTextEncode";
  inputs =
      ("text", Value.list (Values.cons (Value.str id) (Values.cons (Value.int (pos 0)) Values.nil)))
      ∷ [];
}

abbrev pub one_node : Graph
one_node = ("1", text_node "a cat") ∷ []

-- Node 2 shows the text of node 1.
abbrev pub linked_nodes : Graph
linked_nodes = ("2", link_node "1") ∷ ("1", text_node "a cat") ∷ []

-- Two nodes that refer to each other.
abbrev pub cycle : Graph
cycle = ("1", link_node "2") ∷ ("2", link_node "1") ∷ []

abbrev pub answer : EngineResult
answer = record { value = "remote-7"; kind = OutputKind.plain_text; results = [] }

abbrev pub resumed_answer : EngineResult
resumed_answer = record { value = "https://a/b.png"; kind = OutputKind.url; results = [] }

abbrev pub images : Capability
images = record {
  media_types = "image" ∷ [];
  models = [];
  sizes = [];
  voices = [];
  max_duration = pos 0;
  max_images = pos 4;
  max_prompt_chars = pos 0;
  supports_sync = true;
  supports_poll = false;
}

abbrev pub finish_task : String → ℕ → Outcome EngineResult × ℕ
finish_task remote w = (ok resumed_answer, w + 1)

abbrev pub good : Engine ℕ
good = record {
  execute = λ g w. (ok answer, w + 2);
  capabilities = some images;
  resume = some finish_task;
  dry_run = none;
}

abbrev pub bad : Engine ℕ
bad = record {
  execute = λ g w. (err (Error.plain "quota"), w + 1);
  capabilities = none;
  resume = none;
  dry_run = none;
}

abbrev pub env : Env ℕ
env = record { now = λ w. w; ctx_err = λ w. none; captured = λ w. [] }

abbrev pub client : Client ℕ
client = record {
  engines = ("bad", bad) ∷ ("good", good) ∷ [];
  disabled = ("old", true) ∷ [];
  middleware = [];
}

abbrev pub calm : ℕ → System
calm w = record {
  lock_error = none;
  encode_error = none;
  write_error = none;
  torn = File.empty;
  rename_error = none;
  now = w;
}

abbrev pub full_disk : System
full_disk = record {
  lock_error = none;
  encode_error = none;
  write_error = some (Error.plain "no space");
  torn = File.empty;
  rename_error = none;
  now = 9;
}

abbrev pub task_env : TaskEnv ℕ
task_env = record { env = env; sys = calm; new_task_id = λ w. "t-1"; text = λ e. "failed" }

abbrev pub task : String → String → TaskRecord
task id status = record {
  id = id;
  engine_name = "good";
  remote_id = "remote-7";
  status = status;
  created_at = 1;
  updated_at = 1;
  result_val = "";
  result_kind = OutputKind.unknown;
  err_msg = "";
}

abbrev pub two_tasks : File
two_tasks = File.records (task "a" "pending" ∷ task "b" "failed" ∷ [])
