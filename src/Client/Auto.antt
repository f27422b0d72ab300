-- ===== src/Client/Auto.antt =====
-- `ExecuteTask`, `ExecuteTaskAuto`, `ExecuteTaskAutoWithFallback`, `EngineInfos` and `DryRun` of
-- client.go: tasks, and engines chosen by a selector.
pub mod Choice
use aigo.Base.{
  String, Bool, true, false, not, Option, none, some, List, [], ◌∷◌, map, select, str_eq,
  if◌then◌else◌,
}
use aigo.Base.Assoc.{Map, get}
use aigo.Base.Int.{pos}
use aigo.Base.Sort.{sort}
use aigo.Base.Text.{str_leb}
use aigo.Errors.{Error, Outcome, ok, err}
use aigo.Engine.{Engine, Capability, DryRunResult}
use aigo.Task.{AgentTask, prompt_task}
use aigo.BuildGraph.{build_graph}
use aigo.Selector.{EngineInfo, Selection}
use aigo.Client.{Client, is_disabled, engine_names, engine_not_found}
use aigo.Client.Execute.{Env, Result, Executed, execute}
use aigo.Client.Fallback.{Fallback, execute_with_fallback}

-- A `Selector`, which may be a `RichSelector`. It may call a service, so it takes the world.
pub record Selector (W : Type 0) : Type 0 where
  pub select_engine : AgentTask → List String → W → Outcome Selection × W
  pub from_candidates : Option (AgentTask → List EngineInfo → W → Outcome Selection × W)

-- `RoutedResult`; the reason after a fallback only counts the failures and is left out.
pub record RoutedResult : Type 0 where
  pub engine : String
  pub output : Result

pub record Routed (W : Type 0) : Type 0 where
  pub outcome : Outcome RoutedResult
  pub world : W

abbrev pub selector_nil : Error
selector_nil = Error.plain "aigo: selector is nil"

abbrev pub empty_selection : Error
empty_selection = Error.plain "aigo: selector returned empty engine"

-- The capability of an engine without `Describer`.
abbrev pub no_capability : Capability
no_capability = record {
  media_types = [];
  models = [];
  sizes = [];
  voices = [];
  max_duration = pos 0;
  max_images = pos 0;
  max_prompt_chars = pos 0;
  supports_sync = false;
  supports_poll = false;
}

abbrev capability_of : Option Capability → Capability
capability_of none = no_capability
capability_of (some cap) = cap

abbrev pub by_name : EngineInfo → EngineInfo → Bool
by_name i j = str_leb i.name j.name

module _ {W : Type 0} where
  enabled_infos : Client W → Map (Engine W) → List EngineInfo
  unfolding is_disabled
  enabled_infos c [] = []
  enabled_infos c ((name, e) ∷ rest) =
      let others = enabled_infos c rest in
      if is_disabled c name
      then others
      else record { name = name; capability = capability_of e.capabilities } ∷ others

  -- `EngineInfos`, as far as a selector of this library reads it.
  unfoldable pub engine_infos : Client W → List EngineInfo
  unfolding enabled_infos
  engine_infos c = sort by_name (enabled_infos c c.engines)

  -- `DryRun`
  dry_run_of : Engine W → AgentTask → Option (Capability) → Outcome DryRunResult
  dry_run_of e t none = ok (record { will_poll = false; estimated_time = ""; warnings = [] })
  dry_run_of e t (some cap) =
      ok (record { will_poll = cap.supports_poll; estimated_time = ""; warnings = [] })

  unfoldable pub dry_run : Client W → String → AgentTask → Outcome DryRunResult
  unfolding dry_run_of
  dry_run c name t = elim (get c.engines name) [
    | none ↦ err (engine_not_found name)
    | some e ↦ elim e.dry_run [
      | some run ↦ run (build_graph t)
      | none ↦ dry_run_of e t e.capabilities
    ]
  ]

-- The selected engine before the others, in their order.
unfoldable pub rank : String → List String → List String
rank engine names = engine ∷ select (λ name. not (str_eq name engine)) names

module _ {W : Type 0} (env : Env W) (c : Client W) where
  -- `ExecuteTask`
  unfoldable pub execute_task : String → AgentTask → Bool → W → Executed W
  execute_task name t watching w = execute env c name (build_graph t) watching w

  -- `ExecutePrompt`
  unfoldable pub execute_prompt : String → String → W → Executed W
  unfolding execute_task
  execute_prompt name prompt w = execute_task name (prompt_task prompt) false w

  -- The selector is asked with the candidates or with their names.
  pub ask : Selector W → AgentTask → W → Outcome Selection × W
  unfolding engine_infos engine_names
  ask s t w = elim s.from_candidates [
    | some choose ↦ choose t (engine_infos c) w
    | none ↦ s.select_engine t (engine_names c) w
  ]

  routed : String → Outcome Result → Outcome RoutedResult
  routed name (err e) = err e
  routed name (ok r) = ok (record { engine = name; output = r })

  run_selected : AgentTask → Outcome Selection × W → Routed W
  unfolding routed execute_task
  run_selected t (err e, w) = record {
    outcome = err (Error.wrap "aigo: select engine" e);
    world = w;
  }
  run_selected t (ok sel, w) =
      let x = execute_task sel.engine t false w in
      if str_eq sel.engine ""
      then record { outcome = err empty_selection; world = w }
      else record { outcome = routed sel.engine x.outcome; world = x.world }

  -- `ExecuteTaskAuto`
  unfoldable pub execute_task_auto : Option (Selector W) → AgentTask → W → Routed W
  unfolding ask run_selected
  execute_task_auto none t w = record { outcome = err selector_nil; world = w }
  execute_task_auto (some s) t w = run_selected t (ask s t w)

  -- The names that are ranked: those of the candidates or of the engines.
  candidate_names : Selector W → List String
  unfolding engine_infos engine_names
  candidate_names s = elim s.from_candidates [
    | some choose ↦ map (λ (i : EngineInfo). i.name) (engine_infos c)
    | none ↦ engine_names c
  ]

  fallen_back : Outcome (String × Result) → Outcome RoutedResult
  fallen_back (err e) = err e
  fallen_back (ok (name, r)) = ok (record { engine = name; output = r })

  run_ranked : Selector W → AgentTask → Outcome Selection × W → Routed W
  unfolding rank candidate_names fallen_back
  run_ranked s t (err e, w) = record {
    outcome = err (Error.wrap "aigo: select engine" e);
    world = w;
  }
  run_ranked s t (ok sel, w) =
      let f =
        execute_with_fallback env c (build_graph t) false (rank sel.engine (candidate_names s)) w in
      record { outcome = fallen_back f.outcome; world = f.world }

  -- `ExecuteTaskAutoWithFallback`
  unfoldable pub execute_task_auto_with_fallback : Option (Selector W) → AgentTask → W → Routed W
  unfolding ask run_ranked
  execute_task_auto_with_fallback none t w = record { outcome = err selector_nil; world = w }
  execute_task_auto_with_fallback (some s) t w = run_ranked s t (ask s t w)
