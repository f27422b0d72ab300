-- ===== src/BuildGraph.antt =====
-- `BuildGraph` of client.go: the sections of the graph, in the order of the source.
pub mod Options
pub mod Ids
pub mod Nodes
pub mod Prompt
pub mod Sections
pub mod Numbered
use aigo.Base.{
  ℕ, suc, String, Bool, true, false, not, ◌&&◌, ◌||◌, Option, none, some, List, [], ◌∷◌, length,
  leb, str_eq, if◌then◌else◌,
}
use aigo.Base.Assoc.{Map, put}
use aigo.Base.Decimal.{itoa}
use aigo.Base.Int.{ℤ, is_pos}
use aigo.Workflow.{Value, Node, Graph}
use aigo.Task.{ReferenceAsset, AgentTask, VoiceDesignOptions, AudioMixOptions, reference_type_video}
use aigo.BuildGraph.Options.{
  image_options, video_options, audio_options, music_options, sfx_options, search_options,
  mix_options, voice_design_options,
}

-- `graph` and `nextID`
pub record Builder : Type 0 where
  pub graph : Graph
  pub next : ℕ

-- `graph[nodeID(nextID)] = …; nextID++`
unfoldable pub add_node : String → Map Value → Builder → Builder
add_node class_type inputs b = record {
  graph = put b.graph (itoa b.next) (record { class_type = class_type; inputs = inputs });
  next = suc b.next;
}

-- A node under a test.
unfoldable pub add_if : Bool → String → Map Value → Builder → Builder
add_if test class_type inputs b = if test then add_node class_type inputs b else b

-- A node for options that are not empty.
unfoldable pub add_options : String → Map Value → Builder → Builder
unfolding add_if
add_options class_type [] b = b
add_options class_type (o ∷ opts) b = add_node class_type (o ∷ opts) b

-- The graph with the prompt, and `nextID := 2`
unfoldable pub start : AgentTask → Builder
start t = record {
  graph =
      ("1", record { class_type = "CLIPTextEncode"; inputs = ("text", Value.str t.prompt) ∷ [] })
      ∷ [];
  next = 2;
}

-- The loop over the references.
unfoldable pub add_references : List ReferenceAsset → Builder → Builder
add_references [] b = b
add_references (r ∷ rs) b = add_references rs (
    if str_eq r.url ""
    then b
    else add_node (if str_eq r.kind reference_type_video then "LoadVideo" else "LoadImage")
        (("url", Value.str r.url) ∷ []) b)

unfoldable pub add_mix : Option AudioMixOptions → Builder → Builder
add_mix none b = b
add_mix (some mix) b = add_if (leb 2 (length mix.audio_urls)) "AudioMixOptions" (mix_options mix) b

unfoldable pub add_voice_design : Option VoiceDesignOptions → Builder → Builder
add_voice_design none b = b
add_voice_design (some vd) b =
    add_if
      (not (str_eq vd.voice_prompt "")
        && not (str_eq vd.preview_text "")
        && not (str_eq vd.target_model ""))
      "VoiceDesignInput" (voice_design_options vd) b

-- The sections before the references.
unfoldable pub visual_part : AgentTask → Builder
unfolding start
visual_part t = add_options "VideoOptions" (video_options t) (
    add_options "ImageOptions" (image_options t) (
      add_if (not (str_eq t.negative_prompt "")) "NegativePrompt"
        (("negative_prompt", Value.str t.negative_prompt) ∷ [])
        (add_if (is_pos t.width || is_pos t.height) "EmptyLatentImage"
          (("width", Value.int t.width) ∷ ("height", Value.int t.height) ∷ []) (start t))))

-- The sections from the references on.
unfoldable pub media_part : AgentTask → Builder → Builder
media_part t b = add_voice_design t.voice_design (
    add_options "SearchOptions" (search_options t.search) (
      add_mix t.audio_mix (
        add_options "SFXOptions" (sfx_options t.sfx) (
          add_options "MusicOptions" (music_options t.music) (
            add_options "AudioOptions" (audio_options t.tts) (
              add_if (not (str_eq t.audio_url "")) "LoadAudio"
                (("audio_url", Value.str t.audio_url) ∷ []) (add_references t.references b)))))))

-- `BuildGraph`
unfoldable pub build_graph : AgentTask → Graph
unfolding visual_part media_part
build_graph t = (media_part t (visual_part t)).graph
