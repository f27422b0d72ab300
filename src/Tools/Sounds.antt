-- ===== src/Tools/Sounds.antt =====
-- tooldef/tooldef.go: the tools for speech, music and sounds, with the texts and the order of the source.
use aigo.Base.{[], ◌∷◌}
use aigo.Tools.{ToolDef, plain, choice, array_of, defaulted, object}

-- `TextToSpeech`
unfoldable pub text_to_speech : ToolDef
text_to_speech = record {
  name = "text_to_speech";
  description =
      "Convert text to speech audio. Returns a URL of the audio. Use the instructions parameter to control speed, emotion, and delivery style (e.g. 'speak slowly with warm emotion').";
  category = "audio";
  parameters =
      object
        ((
          "text",
          (plain "string"
              "The text to convert to speech. For long text, break into natural paragraphs. Punctuation affects pacing: commas add short pauses, periods add longer pauses."),
        )
          ∷ (
            "voice",
            (plain "string"
                "Voice identifier. Chinese female: Cherry (warm), Serena (bilingual zh/en), Bella (gentle), Momo (cute). Chinese male: Li (mature), Marcus (deep), Peter (standard). English female: Chelsie, Jennifer, Maia. English male: Ethan, Ryan, Aiden. IMPORTANT: Use Chinese voices for Chinese text."),
          )
          ∷ ("language", (plain "string" "Language code (e.g., zh, en)"))
          ∷ (
            "speed",
            (plain "number"
                "Speech rate multiplier. 0.5 = half speed (slow, dramatic), 1.0 = normal, 1.5 = fast. For narration/advertising voiceover use 0.7-0.8. Default: 1.0"),
          )
          ∷ (
            "instructions",
            (plain "string"
                "Style instructions for the speech, e.g. 'speak slowly and clearly', 'with warm emotion', 'fast pace'. Controls speed, emotion, and delivery style"),
          )
          ∷ [])
        ("text" ∷ "voice" ∷ []) [];
}

-- `DesignVoice`
unfoldable pub design_voice : ToolDef
design_voice = record {
  name = "design_voice";
  description =
      "Create a custom AI voice from a text description. Returns JSON with voice ID and optional preview audio.";
  category = "voice";
  parameters =
      object
        ((
          "voice_prompt",
          (plain "string"
              "Describe the voice: gender, age range, tone, and speaking style. 'A warm, confident female voice in her 30s with a slight British accent' is better than 'female voice'."),
        )
          ∷ (
            "preview_text",
            (plain "string"
                "A short sentence for the voice to speak as a preview. Choose text that showcases the voice's range and character."),
          )
          ∷ (
            "target_model",
            (defaulted "string"
                "The TTS model this voice will be used with (default: provider's primary TTS model)"
                "qwen3-tts-flash"),
          )
          ∷ ("preferred_name", (plain "string" "Preferred identifier name for the created voice"))
          ∷ ("language", (choice "Language of the voice" ("zh" ∷ "en" ∷ "ja" ∷ "ko" ∷ []) ""))
          ∷ [])
        ("voice_prompt" ∷ "preview_text" ∷ "target_model" ∷ []) [];
}

-- `TranscribeAudio`
unfoldable pub transcribe_audio : ToolDef
transcribe_audio = record {
  name = "transcribe_audio";
  description =
      "Transcribe audio to text using speech recognition. Returns the transcription text or JSON.";
  category = "audio";
  parameters =
      object
        ((
          "audio_url",
          (plain "string"
              "URL of the audio file to transcribe. Supports common formats: mp3, wav, flac, m4a, webm"),
        )
          ∷ (
            "language",
            (plain "string"
                "Language code of the audio (e.g., en, zh, ja). Providing the correct language improves accuracy"),
          )
          ∷ (
            "response_format",
            (choice
                "Output format. Use 'text' for plain transcript, 'srt'/'vtt' for subtitles with timestamps, 'json' for structured data"
                ("json" ∷ "text" ∷ "srt" ∷ "vtt" ∷ []) ""),
          )
          ∷ [])
        ("audio_url" ∷ []) [];
}

-- `GenerateMusic`
unfoldable pub generate_music : ToolDef
generate_music = record {
  name = "generate_music";
  description =
      "Generate music from a text prompt describing style/mood. Returns a URL of the audio. Use lyrics with section markers like [verse], [chorus], [bridge] for songs. Set is_instrumental=true for music without vocals.";
  category = "music";
  parameters =
      object
        ((
          "prompt",
          (plain "string"
              "Describe genre, mood, tempo, and instruments. Be specific: 'upbeat lo-fi hip-hop, jazzy piano chords, vinyl crackle, 85 BPM' is better than 'chill music'. Combine genre + mood + instrumentation for best results."),
        )
          ∷ (
            "lyrics",
            (plain "string"
                "Song lyrics with structure markers: [verse], [chorus], [bridge], [intro], [outro]. Each section on its own line. Leave empty or set is_instrumental=true for instrumental tracks."),
          )
          ∷ (
            "is_instrumental",
            (plain "boolean" "Set true for music without vocals. When true, lyrics are ignored"),
          )
          ∷ (
            "output_format",
            (choice "Output format for the generated audio" ("url" ∷ "hex" ∷ []) "url"),
          )
          ∷ ("sample_rate", (plain "integer" "Audio sample rate in Hz (e.g., 44100)"))
          ∷ ("format", (choice "Audio encoding format" ("mp3" ∷ "wav" ∷ "flac" ∷ []) "mp3"))
          ∷ [])
        ("prompt" ∷ []) [];
}

-- `GenerateSfx`
unfoldable pub generate_sfx : ToolDef
generate_sfx = record {
  name = "generate_sfx";
  description =
      "Generate a sound effect from a text description. Returns a URL or data URI of the generated audio. Describe the sound precisely: 'heavy rain on a tin roof with distant thunder' is better than 'rain sound'.";
  category = "sfx";
  parameters =
      object
        ((
          "prompt",
          (plain "string"
              "Describe the sound effect: source, texture, intensity, and environment. Be specific: 'metallic clang of a sword hitting a shield in a stone hall' is better than 'sword sound'."),
        )
          ∷ ("duration", (plain "integer" "Duration of the sound effect in seconds"))
          ∷ ("format", (choice "Output audio format" ("mp3" ∷ "wav" ∷ "flac" ∷ []) "mp3"))
          ∷ [])
        ("prompt" ∷ []) [];
}

-- `MixAudio`
unfoldable pub mix_audio : ToolDef
mix_audio = record {
  name = "mix_audio";
  description =
      "Mix multiple audio tracks into a single output. Accepts 2 or more audio URLs with optional per-track volume and delay controls. Use this to combine background music, sound effects, and voice narration into a final mix.";
  category = "audio";
  parameters =
      object
        ((
          "audio_urls",
          (array_of "string"
              "URLs of audio files to mix (minimum 2). The first track is the primary/base track"),
        )
          ∷ (
            "volumes",
            (array_of "number"
                "Per-track volume levels (0.0 to 1.0). Index matches audio_urls. Defaults to 1.0 for all tracks"),
          )
          ∷ (
            "delays",
            (array_of "integer"
                "Per-track delay in milliseconds before playback starts. Index matches audio_urls. Defaults to 0 for all tracks"),
          )
          ∷ (
            "duration",
            (plain "integer"
                "Maximum output duration in seconds. If omitted, uses the longest track's duration"),
          )
          ∷ ("format", (choice "Output audio format" ("mp3" ∷ "wav" ∷ "flac" ∷ []) "mp3"))
          ∷ [])
        ("audio_urls" ∷ []) [];
}
