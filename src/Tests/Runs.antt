-- ===== src/Tests/Runs.antt =====
-- Selected runs, pipelines and retries on the engines of the tests.
use aigo.Base.{ℕ, ◌+◌, ◌≡◌, refl, true, none, [], ◌∷◌, if◌then◌else◌, ltb}
use aigo.Base.Assoc.{put, get, has}
use aigo.Base.Decimal.{itoa}
use aigo.Base.Int.{pos, negsuc}
use aigo.Base.Number.{power, mul64}
use aigo.Client.Fallback.{execute_with_fallback}
use aigo.Base.Sort.{sort}
use aigo.Base.Text.{str_leb, is_blank, is_space}
use aigo.Errors.{Error, ok, err, is_retryable}
use aigo.Workflow.{validate}
use aigo.Engine.{Engine, OutputKind}
use aigo.Task.{prompt_task}
use aigo.BuildGraph.{build_graph, add_voice_design, add_options, add_mix, add_node, add_references}
use aigo.BuildGraph.Options.{
  search_options, sfx_options, music_options, audio_options, video_options, image_options,
  mix_options, voice_design_options,
}
use aigo.Client.{is_enabled}
use aigo.Client.Execute.{Result, execute}
use aigo.Client.Auto.{
  Selector, RoutedResult, execute_task, execute_task_auto, execute_task_auto_with_fallback,
}
use aigo.Client.Auto.Choice
use aigo.Client.Pipeline.{Pipeline, execute_pipeline}
use aigo.Client.Pipeline.Chains
use aigo.Client.Pipeline.Chains.{Chain}
use aigo.Client.Retry.{RetryEnv, backoff_base, execute_retrying}
use aigo.Client.Retry.Attempts
use aigo.Client.Retry.Attempts.{Came}
use aigo.Tests.Data.{one_node, good, answer, env, client}

program : Unit {0}
unfolding execute execute_task execute_task_auto execute_task_auto_with_fallback execute_pipeline
    execute_retrying is_retryable build_graph itoa is_blank is_space validate get has
    add_voice_design add_options add_mix add_node add_references search_options sfx_options
    music_options audio_options video_options image_options mix_options voice_design_options put
    execute_with_fallback sort str_leb
program = tt

-- A selector that wants the failing engine.
abbrev stubborn : Selector ℕ
stubborn = record {
  select_engine = λ t names w. (ok (record { engine = "bad"; reason = "" }), w);
  from_candidates = none;
}

abbrev easy : Selector ℕ
easy = record {
  select_engine = λ t names w. (ok (record { engine = "good"; reason = "" }), w);
  from_candidates = none;
}

abbrev output_in : ℕ → Result
output_in elapsed = record {
  value = "remote-7";
  kind = OutputKind.plain_text;
  engine = "good";
  elapsed = elapsed;
  results = [];
  response_headers = [];
}

abbrev routed_result : RoutedResult
routed_result = record { engine = "good"; output = output_in 2 }

execute_task_auto_with_fallback-enabled_example :
    (is_enabled client "good" ≡ true) × (routed_result.output.engine ≡ "good")
unfolding program
execute_task_auto_with_fallback-enabled_example =
    Choice.execute_task_auto_with_fallback-enabled env client stubborn (prompt_task "a cat") 5
      routed_result refl

abbrev two_steps : Pipeline
two_steps = record {
  engine = "good";
  task = prompt_task "a cat";
  steps = (λ r. (prompt_task r.value, "good")) ∷ [];
}

execute_pipeline-Chain_example :
    Chain env client 5 "good"
      (prompt_task "a cat")
      two_steps.steps
      (execute_pipeline env client two_steps 5)
execute_pipeline-Chain_example = Chains.execute_pipeline-Chain env client two_steps 5

-- An engine that times out until the clock reaches 4.
abbrev late : Engine ℕ
late = record good {
  execute = λ g w. if ltb w 4 then (err Error.deadline_exceeded, w + 1) else (ok answer, w + 1);
}

abbrev patient : RetryEnv ℕ
patient = record {
  ctx_err = λ w. none;
  wait = λ d w. (none, w + 1);
  jitter = λ base w. base;
  wide = λ i. 0;
}

execute_retrying-Came_example :
    Came patient late one_node 3 0 1 (execute_retrying patient late (pos 3) one_node 1) answer
unfolding program
execute_retrying-Came_example = Attempts.execute_retrying-Came patient late one_node 3 1 answer refl

-- The delay before attempt 35 does not fit into 64 bits.
overflows : backoff_base (λ i. 0) 34 ≡ negsuc 1_266_874_889_709_551_615
unfolding backoff_base power mul64
overflows = refl
