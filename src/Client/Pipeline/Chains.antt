-- ===== src/Client/Pipeline/Chains.antt =====
-- The results of a pipeline are those of its steps, each fed with the one before.
use aigo.Base.{
  suc, String, ◌≡◌, refl, ap, ◌⊎◌, false, none, some, List, [], ◌∷◌, length, inl, inr, arith,
}
use aigo.Errors.{Error, Outcome, ok, err}
use aigo.Task.{AgentTask}
use aigo.Client.{Client}
use aigo.Client.Execute.{Env, Result}
use aigo.Client.Auto.{execute_task}
use aigo.Client.Pipeline.{PipelineStep, Pipeline, Run, step_result, run_steps, execute_pipeline}

module _ {W : Type 0} (env : Env W) (c : Client W) where
  -- A run of the calls `(engine, task)`, the later ones given by the steps, from world `w` on: it
  -- ends with the last step, or with the first call that fails.
  pub data Chain : W → String → AgentTask → List PipelineStep → Run W → Type 0 where
    failed :
        (w : W) (name : String) (t : AgentTask) (steps : List PipelineStep) (e : Error)
        → (execute_task env c name t false w).outcome ≡ err e
        → Chain w name t steps (record {
          results = [];
          failure = some (Error.wrap "pipeline step" e);
          world = (execute_task env c name t false w).world;
        })
    last :
        (w : W) (name : String) (t : AgentTask) (r : Result)
        → (execute_task env c name t false w).outcome ≡ ok r
        → Chain w name t [] (record {
          results = r ∷ [];
          failure = none;
          world = (execute_task env c name t false w).world;
        })
    more :
        (w : W) (name : String) (t : AgentTask) (r : Result) (step : PipelineStep)
        (steps : List PipelineStep) (run : Run W)
        → (execute_task env c name t false w).outcome ≡ ok r
        → Chain (execute_task env c name t false w).world (step r).1 (step r).0 steps run
        → Chain w name t (step ∷ steps) (record run { results = r ∷ run.results })

  Outcome-cases : (o : Outcome Result) → ((r : Result) × (o ≡ ok r)) ⊎ ((e : Error) × (o ≡ err e))
  Outcome-cases (ok r) = inl (r, refl)
  Outcome-cases (err e) = inr (e, refl)

  run-Chain :
      (steps : List PipelineStep) (w : W) (name : String) (t : AgentTask)
      → Chain w name t steps (
          step_result env c
            (run_steps env c steps)
            (execute_task env c name t false w).world
            (execute_task env c name t false w).outcome)
  unfolding run_steps step_result
  run-Chain [] w name t = elim (Outcome-cases (execute_task env c name t false w).outcome) [
    | inl (r, h) ↦ rw (h, step_result) (Chain.last w name t r h)
    | inr (e, h) ↦ rw (h, step_result) (Chain.failed w name t [] e h)
  ]
  run-Chain (step ∷ steps) w name t =
      elim (Outcome-cases (execute_task env c name t false w).outcome) [
        | inl (r, h) ↦
            rw (h, step_result)
              (Chain.more w name t r step steps _ h
                (run-Chain steps (execute_task env c name t false w).world (step r).1 (step r).0))
        | inr (e, h) ↦ rw (h, step_result) (Chain.failed w name t (step ∷ steps) e h)
      ]

  -- `ExecutePipeline` runs the first task, then for each step the task that the step makes of the
  -- result before it, until a call fails or no step is left, and returns the results so far in order.
  pub execute_pipeline-Chain :
      (p : Pipeline) (w : W) → Chain w p.engine p.task p.steps (execute_pipeline env c p w)
  unfolding execute_pipeline
  execute_pipeline-Chain p w = run-Chain p.steps w p.engine p.task

  Chain-full :
      (w : W) (name : String) (t : AgentTask) (steps : List PipelineStep) (run : Run W)
      → Chain w name t steps run
      → run.failure ≡ none
      → length run.results ≡ suc (length steps)
  Chain-full w name t steps _ (Chain.failed _ _ _ _ e h) k = absurd (ground arith)
  Chain-full w name t [] _ (Chain.last _ _ _ r h) k = refl
  Chain-full w name t (_ ∷ _) _ (Chain.more _ _ _ r step steps run h chain) k =
      ap suc (Chain-full _ _ _ steps run chain k)

  -- A pipeline without an error has a result for its first task and for each step.
  pub execute_pipeline-full :
      (p : Pipeline) (w : W)
      → (execute_pipeline env c p w).failure ≡ none
      → length (execute_pipeline env c p w).results ≡ suc (length p.steps)
  execute_pipeline-full p w h =
      Chain-full w p.engine p.task p.steps _ (execute_pipeline-Chain p w) h
