-- ===== src/Tests/Tasks.antt =====
-- Graphs built from tasks, and the priority selector.
use aigo.Base.{◌++◌, ◌≡◌, refl, true, ◌&&◌, none, some, List, [], ◌∷◌, length, some_of, str_eq}
use aigo.Base.Assoc.{put, keys}
use aigo.Base.Decimal.{itoa}
use aigo.Base.Int.{pos}
use aigo.Base.Text.{is_blank, is_space}
use aigo.Errors.{ok}
use aigo.Workflow.{validate}
use aigo.Resolve.{extract_prompt}
use aigo.Task.{AgentTask, prompt_task}
use aigo.BuildGraph.{build_graph, add_voice_design, add_options, add_mix, add_node, add_references}
use aigo.BuildGraph.Options.{
  search_options, sfx_options, music_options, audio_options, video_options, image_options,
  mix_options, voice_design_options,
}
use aigo.BuildGraph.Ids.{numbers}
use aigo.BuildGraph.Prompt
use aigo.BuildGraph.Numbered
use aigo.BuildGraph.Sections.{nodes_of, visual_nodes, media_nodes}
use aigo.Selector.{EngineInfo, accepts, select_engine, select_engine_from_candidates}
use aigo.Selector.Choices
use aigo.Client.Auto.{no_capability}
use aigo.Client.Auto.Choice.{is_listed}
use aigo.Tests.Data.{images}

program : Unit {0}
unfolding is_blank is_space build_graph itoa select_engine accepts select_engine_from_candidates
    is_listed add_voice_design add_options add_mix add_node add_references search_options
    sfx_options music_options audio_options video_options image_options mix_options
    voice_design_options put
program = tt

-- A task with a size, a clip and a track to transcribe.
abbrev clip : AgentTask
clip = record (prompt_task "a cat") {
  width = pos 512;
  negative_prompt = "dogs";
  references = record { kind = "video"; url = "https://a/b.mp4" } ∷ [];
  audio_url = "https://a/c.mp3";
}

clip-keys : keys (build_graph clip) ≡ "1" ∷ "2" ∷ "3" ∷ "4" ∷ "5" ∷ []
unfolding program
clip-keys = refl

build_graph_example :
    (nodes_of (build_graph clip) ≡ visual_nodes clip ++ media_nodes clip)
    × (keys (build_graph clip) ≡ numbers (length (visual_nodes clip ++ media_nodes clip)))
build_graph_example = Numbered.build_graph_lem clip

validate-build_graph_example : validate (build_graph clip) ≡ none
validate-build_graph_example = Prompt.validate-build_graph clip

extract_prompt-build_graph_example : extract_prompt (build_graph clip) ≡ some (ok "a cat")
unfolding program
extract_prompt-build_graph_example = Prompt.extract_prompt-build_graph clip refl

abbrev candidates : List EngineInfo
candidates =
    record { name = "video"; capability = record no_capability { media_types = "video" ∷ [] } }
    ∷ record { name = "image"; capability = images }
    ∷ []

select_engine_from_candidates-accepts_example :
    some_of
      (λ (i : EngineInfo). str_eq i.name "image" && accepts (prompt_task "a cat") i)
      candidates
    ≡ true
unfolding program
select_engine_from_candidates-accepts_example =
    Choices.select_engine_from_candidates-accepts ("video" ∷ []) (prompt_task "a cat") candidates
      (record { engine = "image"; reason = "fallback to first compatible" }) refl
