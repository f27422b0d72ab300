-- ===== src/Tools/Videos.antt =====
-- tooldef/tooldef.go: the tools for videos and for the search of material, with the texts and the order of the source.
use aigo.Base.{[], ◌∷◌}
use aigo.Tools.{ToolDef, plain, choice, array_of, object}

-- `GenerateVideo`
unfoldable pub generate_video : ToolDef
generate_video = record {
  name = "generate_video";
  description =
      "Generate a video from a text prompt. Returns a URL to the generated video. Supports text-to-video, image-to-video (provide reference_image), and video-to-video (provide reference_video). For best results with image-to-video, generate an image first with generate_image, then pass its URL as reference_image.";
  category = "video";
  parameters =
      object
        ((
          "prompt",
          (plain "string"
              "Describe the video scene: subject, action/motion, environment, camera movement, and mood. Be specific about motion: 'camera slowly pans right as leaves fall' is better than 'nature scene'."),
        )
          ∷ (
            "duration",
            (plain "integer"
                "Video duration in seconds. Must be between 3 and 15 (inclusive). Shorter durations produce higher quality. Default: 5"),
          )
          ∷ (
            "size",
            (choice
                "Video dimensions. 1280x720 for landscape, 720x1280 for portrait/mobile, 960x960 for square"
                ("1280x720" ∷ "960x960" ∷ "720x1280" ∷ "1920x1080" ∷ "1080x1920" ∷ []) "1280x720"),
          )
          ∷ (
            "aspect_ratio",
            (choice
                "Video aspect ratio. 16:9 for standard video, 9:16 for mobile/shorts, 1:1 for social media"
                ("16:9" ∷ "9:16" ∷ "1:1" ∷ "4:3" ∷ "3:4" ∷ []) ""),
          )
          ∷ (
            "resolution",
            (choice
                "Output resolution tier. '720P' produces ~720p equivalent (draft quality), '1080P' produces ~1080p equivalent (final quality). For 9:16 vertical video at full HD, use '1080P'. Actual pixel dimensions depend on the engine."
                ("480P" ∷ "720P" ∷ "1080P" ∷ []) "720P"),
          )
          ∷ (
            "reference_image",
            (plain "string"
                "URL of a reference image for image-to-video. Tip: generate a high-quality image first with generate_image, then animate it"),
          )
          ∷ (
            "reference_images",
            (array_of "string"
                "URLs of multiple reference images for multi-image-to-video (e.g. start and end frames)"),
          )
          ∷ (
            "reference_video",
            (plain "string"
                "URL of a source video for video-to-video transformation (style transfer, motion retargeting)"),
          )
          ∷ ("audio", (plain "boolean" "Enable audio generation when the provider supports it"))
          ∷ ("watermark", (plain "boolean" "Enable watermark when the provider supports it"))
          ∷ [])
        ("prompt" ∷ []) [];
}

-- `EditVideo`
unfoldable pub edit_video : ToolDef
edit_video = record {
  name = "edit_video";
  description =
      "Edit an existing video based on a text prompt. Returns a URL to the edited video. Optionally provide a reference_image for style guidance.";
  category = "video";
  parameters =
      object
        ((
          "prompt",
          (plain "string"
              "Describe the edit to apply. Focus on what changes: 'apply watercolor painting style' or 'replace background with ocean sunset'. Keep the original motion unless you want to change it."),
        )
          ∷ (
            "video_url",
            (plain "string"
                "URL of the source video to edit. Can be a URL returned by generate_video"),
          )
          ∷ (
            "reference_image",
            (plain "string"
                "URL of a reference image for style transfer. The video adopts the visual style of this image while keeping its motion"),
          )
          ∷ (
            "size",
            (choice "Output video dimensions. Match the source aspect ratio to avoid distortion"
                ("1280x720" ∷ "960x960" ∷ "720x1280" ∷ "1920x1080" ∷ "1080x1920" ∷ []) ""),
          )
          ∷ ("duration", (plain "integer" "Output video duration in seconds"))
          ∷ [])
        ("prompt" ∷ "video_url" ∷ []) [];
}

-- `SearchMaterial`
unfoldable pub search_material : ToolDef
search_material = record {
  name = "search_material";
  description =
      "Search for stock photos, videos, audio, and other creative assets from multiple platforms (Pexels, Unsplash, Pixabay) or your own asset library. Returns a list of matching items with preview URLs and metadata. Use specific keywords and media_type to narrow results.";
  category = "search";
  parameters =
      object
        ((
          "query",
          (plain "string"
              "Search keywords or natural language description of the desired material. Be specific: 'aerial view of snow-covered forest at sunset' is better than 'forest'."),
        )
          ∷ (
            "media_type",
            (choice "Type of material to search for" ("image" ∷ "video" ∷ "audio" ∷ "document" ∷ [])
                ""),
          )
          ∷ (
            "source",
            (choice
                "Which platform to search. Use 'all' to search everywhere, or pick a specific source for faster results"
                ("all" ∷ "pexels" ∷ "unsplash" ∷ "pixabay" ∷ "oss" ∷ "local" ∷ []) "all"),
          )
          ∷ (
            "max_results",
            (plain "integer" "Maximum number of results to return (1-100). Default: 20"),
          )
          ∷ (
            "tags",
            (plain "string" "Comma-separated tags to filter by (e.g. 'nature,landscape,sunset')"),
          )
          ∷ (
            "sort",
            (choice "How to sort results" ("relevance" ∷ "newest" ∷ "popular" ∷ []) "relevance"),
          )
          ∷ [])
        ("query" ∷ []) [];
}
