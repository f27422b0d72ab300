-- ===== src/BuildGraph/Options.antt =====
-- The option maps of `BuildGraph`: an option is written only if it is set.
use aigo.Base.{String, Bool, true, Option, none, some, List, [], ◌∷◌, str_eq, if◌then◌else◌}
use aigo.Base.Assoc.{Map, put}
use aigo.Base.Int.{ℤ, is_pos, Float64}
use aigo.Workflow.{Value}
use aigo.Task.{
  TtsOptions, MusicOptions, SfxOptions, AudioMixOptions, SearchOptions, VoiceDesignOptions,
  AgentTask, structured_of,
}

-- `if s != "" { m[k] = s }`
set_text : String → String → Map Value → Map Value
set_text k s m = if str_eq s "" then m else put m k (Value.str s)

-- `if n > 0 { m[k] = n }`
set_positive : String → ℤ → Map Value → Map Value
set_positive k n m = if is_pos n then put m k (Value.int n) else m

-- `if p != nil { m[k] = *p }`
set_flag : String → Option Bool → Map Value → Map Value
set_flag k none m = m
set_flag k (some b) m = put m k (Value.bool b)

-- `if len(ss) > 0 { m[k] = ss }`
set_texts : String → List String → Map Value → Map Value
set_texts k [] m = m
set_texts k (s ∷ ss) m = put m k (Value.strs (s ∷ ss))

set_ints : String → List ℤ → Map Value → Map Value
set_ints k [] m = m
set_ints k (n ∷ ns) m = put m k (Value.ints (n ∷ ns))

set_floats : String → List Float64 → Map Value → Map Value
set_floats k [] m = m
set_floats k (n ∷ ns) m = put m k (Value.floats (n ∷ ns))

-- A field of `Structured` over the field of the task.
text_over : String → String → String
text_over over base = if str_eq over "" then base else over

positive_over : ℤ → ℤ → ℤ
positive_over over base = if is_pos over then over else base

flag_over : Option Bool → Option Bool → Option Bool
flag_over none base = base
flag_over (some b) base = some b

-- `imageOptions`
unfoldable pub image_options : AgentTask → Map Value
unfolding set_text set_flag text_over flag_over
image_options t =
    let s = structured_of t in
    set_flag "watermark" (flag_over s.image_watermark t.watermark) (
      set_text "quality" (text_over s.image_quality t.quality) (
        set_text "resolution" s.image_resolution (
          set_text "aspect_ratio" s.image_aspect_ratio
            (set_text "size" (text_over s.image_size t.size) []))))

-- `videoOptions`
unfoldable pub video_options : AgentTask → Map Value
unfolding set_text set_positive set_flag text_over positive_over flag_over
video_options t =
    let s = structured_of t in
    set_flag "watermark" (flag_over s.video_watermark t.watermark) (
      set_flag "audio" s.video_audio (
        set_text "resolution" s.video_resolution (
          set_text "aspect_ratio" s.video_aspect_ratio (
            set_positive "duration" (positive_over s.video_duration t.duration)
              (set_text "size" (text_over s.video_size t.size) [])))))

-- `audioOpts`
unfoldable pub audio_options : Option TtsOptions → Map Value
unfolding set_text set_flag
audio_options none = []
audio_options (some o) = set_flag "optimize_instructions" o.optimize_instructions (
    set_text "instructions" o.instructions
      (set_text "language_type" o.language_type (set_text "voice" o.voice [])))

-- `musicOpts`
unfoldable pub music_options : Option MusicOptions → Map Value
unfolding set_text set_flag set_positive
music_options none = []
music_options (some o) = set_text "format" o.format (
    set_positive "bitrate" o.bitrate (
      set_positive "sample_rate" o.sample_rate (
        set_text "output_format" o.output_format (
          set_flag "lyrics_optimizer" o.lyrics_optimizer
            (set_flag "is_instrumental" o.is_instrumental (set_text "lyrics" o.lyrics []))))))

-- `sfxOpts`
unfoldable pub sfx_options : Option SfxOptions → Map Value
unfolding set_text set_positive
sfx_options none = []
sfx_options (some o) = set_text "format" o.format (set_positive "duration" o.duration [])

-- `mixOpts`
unfoldable pub mix_options : AudioMixOptions → Map Value
unfolding set_text set_positive set_ints set_floats
mix_options o = set_text "format" o.format (
    set_positive "duration" o.duration (
      set_ints "delays" o.delays
        (set_floats "volumes" o.volumes (("audio_urls", Value.strs o.audio_urls) ∷ []))))

-- `searchOpts`
unfoldable pub search_options : Option SearchOptions → Map Value
unfolding set_text set_positive set_texts
search_options none = []
search_options (some o) = set_text "simple_query" o.simple_query (
    set_text "field_query" o.field_query (
      set_text "next_token" o.next_token (
        set_positive "page" o.page (
          set_text "order" o.order (
            set_text "sort" o.sort (
              set_texts "tags" o.tags (
                set_positive "max_results" o.max_results (
                  set_text "source" o.source
                    (set_texts "media_types" o.media_types (set_text "mode" o.mode []))))))))))

-- `vd`
unfoldable pub voice_design_options : VoiceDesignOptions → Map Value
unfolding set_text set_positive
voice_design_options o =
    let m = set_text "response_format" o.response_format (
      set_positive "sample_rate" o.sample_rate (
        set_text "language" o.language (
          set_text "preferred_name" o.preferred_name (
            ("voice_prompt", Value.str o.voice_prompt)
            ∷ ("preview_text", Value.str o.preview_text)
            ∷ ("target_model", Value.str o.target_model)
            ∷ [])))) in
    if o.omit_preview then put m "omit_preview" (Value.bool true) else m
