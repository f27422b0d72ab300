-- ===== src/Client/Pipeline.antt =====
-- pipeline.go: executions in sequence, each task derived from the result before it.
pub mod Chains
use aigo.Base.{String, false, Option, none, some, List, [], ◌∷◌, ◌++◌}
use aigo.Errors.{Error, Outcome, ok, err}
use aigo.Task.{AgentTask}
use aigo.Client.{Client}
use aigo.Client.Execute.{Env, Result, Executed}
use aigo.Client.Auto.{execute_task}

-- `PipelineStep`
abbrev pub PipelineStep : Type 0
PipelineStep = Result → AgentTask × String

-- `Pipeline`: the first engine and task, and the steps after it. `NewPipeline` always gives a first
-- entry.
pub record Pipeline : Type 0 where
  pub engine : String
  pub task : AgentTask
  pub steps : List PipelineStep

-- `NewPipeline`
unfoldable pub new_pipeline : String → AgentTask → Pipeline
new_pipeline name t = record { engine = name; task = t; steps = [] }

-- `Then`
unfoldable pub then_step : Pipeline → PipelineStep → Pipeline
then_step p fn = record p { steps = p.steps ++ fn ∷ [] }

-- The results so far, the error if a step failed, and the world.
pub record Run (W : Type 0) : Type 0 where
  pub results : List Result
  pub failure : Option Error
  pub world : W

abbrev after_result : {W : Type 0} → Result → Run W → Run W
after_result r run = record run { results = r ∷ run.results }

module _ {W : Type 0} (env : Env W) (c : Client W) where
  -- One step: its error ends the pipeline, its result feeds the rest.
  step_result : (Result → W → Run W) → W → Outcome Result → Run W
  step_result next w (err e) = record {
    results = [];
    failure = some (Error.wrap "pipeline step" e);
    world = w;
  }
  step_result next w (ok r) = after_result r (next r w)

  -- The loop over the later steps.
  run_steps : List PipelineStep → Result → W → Run W
  unfolding step_result
  run_steps [] r w = record { results = []; failure = none; world = w }
  run_steps (step ∷ steps) r w =
      let x = execute_task env c (step r).1 (step r).0 false w in
      step_result (run_steps steps) x.world x.outcome

  -- `ExecutePipeline`
  unfoldable pub execute_pipeline : Pipeline → W → Run W
  unfolding run_steps
  execute_pipeline p w =
      let x = execute_task env c p.engine p.task false w in
      step_result (run_steps p.steps) x.world x.outcome
