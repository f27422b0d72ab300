-- ===== src/Task.antt =====
-- client.go: `AgentTask`, the request that `BuildGraph` turns into a graph, and its groups of options.
use aigo.Base.{String, Bool, Option, none, some, List}
use aigo.Base.Int.{ℤ, pos, Float64}

-- `ReferenceAsset`; the type is "image" or "video".
pub record ReferenceAsset : Type 0 where
  pub kind : String
  pub url : String

abbrev pub reference_type_video : String
reference_type_video = "video"

-- `TTSOptions`
pub record TtsOptions : Type 0 where
  pub voice : String
  pub language_type : String
  pub instructions : String
  pub optimize_instructions : Option Bool

-- `MusicOptions`
pub record MusicOptions : Type 0 where
  pub lyrics : String
  pub is_instrumental : Option Bool
  pub lyrics_optimizer : Option Bool
  pub output_format : String
  pub sample_rate : ℤ
  pub bitrate : ℤ
  pub format : String

-- `SFXOptions`
pub record SfxOptions : Type 0 where
  pub duration : ℤ
  pub format : String

-- `AudioMixOptions`
pub record AudioMixOptions : Type 0 where
  pub audio_urls : List String
  pub volumes : List Float64
  pub delays : List ℤ
  pub duration : ℤ
  pub format : String

-- `SearchOptions`
pub record SearchOptions : Type 0 where
  pub mode : String
  pub media_types : List String
  pub source : String
  pub max_results : ℤ
  pub tags : List String
  pub sort : String
  pub order : String
  pub page : ℤ
  pub next_token : String
  pub field_query : String
  pub simple_query : String

-- `VoiceDesignOptions`
pub record VoiceDesignOptions : Type 0 where
  pub voice_prompt : String
  pub preview_text : String
  pub target_model : String
  pub preferred_name : String
  pub language : String
  pub sample_rate : ℤ
  pub response_format : String
  pub omit_preview : Bool

-- `AgentTaskStructured`
pub record AgentTaskStructured : Type 0 where
  pub image_size : String
  pub image_aspect_ratio : String
  pub image_resolution : String
  pub image_quality : String
  pub image_camera_angle : String
  pub image_watermark : Option Bool
  pub video_duration : ℤ
  pub video_size : String
  pub video_watermark : Option Bool
  pub video_aspect_ratio : String
  pub video_resolution : String
  pub video_audio : Option Bool

-- `AgentTask`; a nil pointer is `none`.
pub record AgentTask : Type 0 where
  pub prompt : String
  pub negative_prompt : String
  pub width : ℤ
  pub height : ℤ
  pub size : String
  pub quality : String
  pub duration : ℤ
  pub watermark : Option Bool
  pub references : List ReferenceAsset
  pub audio_url : String
  pub tts : Option TtsOptions
  pub voice_design : Option VoiceDesignOptions
  pub music : Option MusicOptions
  pub sfx : Option SfxOptions
  pub audio_mix : Option AudioMixOptions
  pub search : Option SearchOptions
  pub structured : Option AgentTaskStructured

-- `AgentTask{Prompt: prompt}`
abbrev pub prompt_task : String → AgentTask
prompt_task prompt = record {
  prompt = prompt;
  negative_prompt = "";
  width = pos 0;
  height = pos 0;
  size = "";
  quality = "";
  duration = pos 0;
  watermark = none;
  references = List.[];
  audio_url = "";
  tts = none;
  voice_design = none;
  music = none;
  sfx = none;
  audio_mix = none;
  search = none;
  structured = none;
}

-- What the code reads through a nil `Structured`, where each test on a field fails as on an empty one.
abbrev pub empty_structured : AgentTaskStructured
empty_structured = record {
  image_size = "";
  image_aspect_ratio = "";
  image_resolution = "";
  image_quality = "";
  image_camera_angle = "";
  image_watermark = none;
  video_duration = pos 0;
  video_size = "";
  video_watermark = none;
  video_aspect_ratio = "";
  video_resolution = "";
  video_audio = none;
}

abbrev pub structured_of : AgentTask → AgentTaskStructured
structured_of t = elim t.structured [ none ↦ empty_structured | some s ↦ s ]
