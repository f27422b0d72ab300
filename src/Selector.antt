-- ===== src/Selector.antt =====
-- selector.go: the media type of a task, the filter by capabilities, and the selector by priority.
pub mod Choices
use aigo.Base.{
  ℕ, String, Bool, true, false, not, ◌&&◌, ◌||◌, Option, none, some, List, [], ◌∷◌, select, some_of,
  str_eq, if◌then◌else◌,
}
use aigo.Base.Int.{ℤ, is_pos, leb_ℤ}
use aigo.Base.Sort.{sort_strings}
use aigo.Errors.{Error, Outcome, ok, err}
use aigo.Engine.{Capability}
use aigo.Task.{AgentTask, ReferenceAsset, TtsOptions, reference_type_video, structured_of}

-- `EngineInfo`, as far as a selector of this file reads it.
pub record EngineInfo : Type 0 where
  pub name : String
  pub capability : Capability

-- `Selection`
pub record Selection : Type 0 where
  pub engine : String
  pub reason : String

abbrev is_set {ℓ} : {A : Type ℓ} → Option A → Bool
is_set none = false
is_set (some a) = true

-- `hasVideo`
unfoldable pub has_video : AgentTask → Bool
has_video t =
    let s = structured_of t in
    is_pos t.duration
    || some_of (λ (r : ReferenceAsset). str_eq r.kind reference_type_video) t.references
    || is_pos s.video_duration
    || not (str_eq s.video_size "")
    || not (str_eq s.video_aspect_ratio "")

-- `InferMediaType`
unfoldable pub infer_media_type : AgentTask → String
unfolding has_video
infer_media_type t =
    if is_set t.voice_design
    then "voice_design"
    else if is_set t.audio_mix
    then "audio_mix"
    else if is_set t.sfx
    then "sfx"
    else if is_set t.music
    then "music"
    else if is_set t.tts
    then "audio"
    else if has_video t
    then "video"
    else "image"

-- No metadata, or an entry of it.
unfoldable pub listed_or_unknown : String → List String → Bool
listed_or_unknown s [] = true
listed_or_unknown s (x ∷ xs) = some_of (λ y. str_eq y s) (x ∷ xs)

-- `matchMediaType`
unfoldable pub match_media_type : Capability → String → Bool
unfolding listed_or_unknown
match_media_type cap media_type = listed_or_unknown media_type cap.media_types

-- `matchDuration`
unfoldable pub match_duration : Capability → AgentTask → Bool
match_duration cap t =
    let s = structured_of t in
    let dur = if is_pos s.video_duration then s.video_duration else t.duration in
    if not (is_pos dur) || not (is_pos cap.max_duration) then true else leb_ℤ dur cap.max_duration

-- `matchVoice`
unfoldable pub match_voice : Capability → Option TtsOptions → Bool
unfolding listed_or_unknown
match_voice cap none = true
match_voice cap (some tts) =
    if str_eq tts.voice "" then true else listed_or_unknown tts.voice cap.voices

-- `matchSize`
unfoldable pub match_size : Capability → AgentTask → Bool
unfolding listed_or_unknown
match_size cap t =
    let s = structured_of t in
    let size =
      if not (str_eq s.video_size "")
      then s.video_size
      else if not (str_eq s.image_size "")
      then s.image_size
      else t.size in
    if str_eq size "" then true else listed_or_unknown size cap.sizes

-- The tests of the loop of `Filter`.
unfoldable pub accepts : AgentTask → EngineInfo → Bool
unfolding match_media_type match_duration match_voice match_size infer_media_type
accepts t c =
    match_media_type c.capability (infer_media_type t)
    && match_duration c.capability t
    && match_voice c.capability t.tts
    && match_size c.capability t

-- `Filter`
unfoldable pub filter : AgentTask → List EngineInfo → List EngineInfo
unfolding accepts
filter t candidates = select (accepts t) candidates

-- The loops over the priority list: the first name that is available.
unfoldable pub first_available : (String → Bool) → List String → Option String
first_available available [] = none
first_available available (name ∷ names) =
    let rest = first_available available names in if available name then some name else rest

abbrev pub no_engines : Error
no_engines = Error.plain "aigo: no engines available"

abbrev pub no_compatible : Error
no_compatible = Error.plain "aigo: no compatible engines after filtering"

first_sorted : List String → Outcome Selection
first_sorted [] = err no_engines
first_sorted (name ∷ names) = ok (record { engine = name; reason = "fallback to first available" })

chosen : String → Outcome Selection → Option String → Outcome Selection
chosen reason fallback none = fallback
chosen reason fallback (some name) = ok (record { engine = name; reason = reason })

-- `PrioritySelector.SelectEngine`; the task is not read.
unfoldable pub select_engine : List String → List String → Outcome Selection
unfolding first_available first_sorted chosen
select_engine priority engines =
    chosen "priority match" (first_sorted (sort_strings engines))
      (first_available (λ name. some_of (λ e. str_eq e name) engines) priority)

compatible : List String → List EngineInfo → Outcome Selection
unfolding first_available chosen
compatible priority [] = err no_compatible
compatible priority (c ∷ cs) =
    chosen "priority match (capability-filtered)"
      (ok (record { engine = c.name; reason = "fallback to first compatible" }))
      (first_available (λ name. some_of (λ (i : EngineInfo). str_eq i.name name) (c ∷ cs)) priority)

-- `PrioritySelector.SelectEngineFromCandidates`; the flag says whether there is a filter.
unfoldable pub select_engine_from_candidates :
    List String → Bool → AgentTask → List EngineInfo → Outcome Selection
unfolding compatible filter
select_engine_from_candidates priority filtering t candidates =
    compatible priority (if filtering then filter t candidates else candidates)
