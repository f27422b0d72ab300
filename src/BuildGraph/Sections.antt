-- ===== src/BuildGraph/Sections.antt =====
-- `BuildGraph` of client.go: the nodes that a task asks for, each under an id of its own.
use aigo.Base.{
  String, Bool, not, ◌&&◌, ◌||◌, Option, none, some, List, [], ◌∷◌, ◌++◌, length, leb, str_eq,
  if◌then◌else◌,
}
use aigo.Base.Assoc.{Map}
use aigo.Base.Int.{is_pos}
use aigo.Workflow.{Value, Node, Graph}
use aigo.Task.{ReferenceAsset, AgentTask, VoiceDesignOptions, AudioMixOptions, reference_type_video}
use aigo.BuildGraph.Options.{
  image_options, video_options, audio_options, music_options, sfx_options, search_options,
  mix_options, voice_design_options,
}

abbrev pub nodes_of : Graph → List Node
nodes_of [] = []
nodes_of ((id, n) ∷ g) = n ∷ nodes_of g

abbrev pub node : String → Map Value → Node
node class_type inputs = record { class_type = class_type; inputs = inputs }

-- One node if the test holds.
abbrev pub node_if : Bool → String → Map Value → List Node
node_if test class_type inputs = if test then node class_type inputs ∷ [] else []

-- One node if there are options.
abbrev pub node_of : String → Map Value → List Node
node_of class_type [] = []
node_of class_type (o ∷ opts) = node class_type (o ∷ opts) ∷ []

abbrev pub nodes_of_references : List ReferenceAsset → List Node
nodes_of_references [] = []
nodes_of_references (r ∷ rs) =
    node_if (not (str_eq r.url ""))
      (if str_eq r.kind reference_type_video then "LoadVideo" else "LoadImage")
      (("url", Value.str r.url) ∷ [])
    ++ nodes_of_references rs

abbrev pub node_of_mix : Option AudioMixOptions → List Node
node_of_mix none = []
node_of_mix (some mix) = node_if (leb 2 (length mix.audio_urls)) "AudioMixOptions" (mix_options mix)

abbrev pub node_of_design : Option VoiceDesignOptions → List Node
node_of_design none = []
node_of_design (some vd) =
    node_if
      (not (str_eq vd.voice_prompt "")
        && not (str_eq vd.preview_text "")
        && not (str_eq vd.target_model ""))
      "VoiceDesignInput" (voice_design_options vd)

-- The nodes before the references.
abbrev pub visual_nodes : AgentTask → List Node
visual_nodes t =
    node "CLIPTextEncode" (("text", Value.str t.prompt) ∷ [])
    ∷ (node_if (is_pos t.width || is_pos t.height) "EmptyLatentImage"
          (("width", Value.int t.width) ∷ ("height", Value.int t.height) ∷ [])
        ++ node_if (not (str_eq t.negative_prompt "")) "NegativePrompt"
            (("negative_prompt", Value.str t.negative_prompt) ∷ [])
        ++ node_of "ImageOptions" (image_options t)
        ++ node_of "VideoOptions" (video_options t))

-- The nodes from the references on.
abbrev pub media_nodes : AgentTask → List Node
media_nodes t =
    nodes_of_references t.references
    ++ node_if (not (str_eq t.audio_url "")) "LoadAudio" (("audio_url", Value.str t.audio_url) ∷ [])
    ++ node_of "AudioOptions" (audio_options t.tts)
    ++ node_of "MusicOptions" (music_options t.music)
    ++ node_of "SFXOptions" (sfx_options t.sfx)
    ++ node_of_mix t.audio_mix
    ++ node_of "SearchOptions" (search_options t.search)
    ++ node_of_design t.voice_design
