-- ===== src/Tools/Images.antt =====
-- tooldef/tooldef.go: the tools for images and 3D models, with the texts and the order of the source.
use aigo.Base.{[], ◌∷◌}
use aigo.Tools.{ToolDef, plain, choice, array_of, defaulted, object}

-- `GenerateImage`
unfoldable pub generate_image : ToolDef
generate_image = record {
  name = "generate_image";
  description =
      "Generate an image from a text prompt. Returns a URL of the generated image. Write detailed prompts: describe subject, style, composition, lighting, and mood. Use negative_prompt to exclude unwanted elements.";
  category = "image";
  parameters =
      object
        ((
          "prompt",
          (plain "string"
              "Detailed description of the image. Structure as: subject → style/medium → composition/framing → lighting/mood → color palette. Be specific: 'a ceramic coffee mug on a marble countertop, soft studio lighting, warm tones' is better than 'a mug'."),
        )
          ∷ (
            "negative_prompt",
            (plain "string"
                "Elements to exclude from the image (e.g. 'blurry, watermark, text, low quality, extra fingers')"),
          )
          ∷ (
            "size",
            (choice
                "Image dimensions. Use 1024x1024 for square, 1536x1024 for landscape, 1024x1536 for portrait"
                ("1024x1024" ∷ "1024x1536" ∷ "1536x1024" ∷ "512x512" ∷ []) "1024x1024"),
          )
          ∷ (
            "aspect_ratio",
            (choice
                "Image aspect ratio. 16:9 for landscape/hero banners, 9:16 for mobile/portrait, 1:1 for avatar/square"
                ("1:1" ∷ "3:4" ∷ "4:3" ∷ "16:9" ∷ "9:16" ∷ []) ""),
          )
          ∷ (
            "resolution",
            (choice
                "Image resolution quality. Use 1K for drafts, 2K for standard, 4K for print/high-detail"
                ("1K" ∷ "2K" ∷ "4K" ∷ []) "2K"),
          )
          ∷ (
            "quality",
            (choice
                "Provider image quality tier. Use low for drafts, medium/high for final output, auto to let the model choose, or standard/hd for DALL-E compatible providers"
                ("low" ∷ "medium" ∷ "high" ∷ "auto" ∷ "standard" ∷ "hd" ∷ []) ""),
          )
          ∷ (
            "camera_angle",
            (choice "Camera angle preset for the shot"
                ("front" ∷ "side" ∷ "back" ∷ "top-down" ∷ "low-angle" ∷ "high-angle" ∷ "45-degree"
                  ∷ "close-up" ∷ [])
                ""),
          )
          ∷ (
            "width",
            (plain "integer"
                "Custom image width in pixels (use instead of size for non-standard dimensions)"),
          )
          ∷ (
            "height",
            (plain "integer"
                "Custom image height in pixels (use instead of size for non-standard dimensions)"),
          )
          ∷ [])
        ("prompt" ∷ []) [];
}

-- `EditImage`
unfoldable pub edit_image : ToolDef
edit_image = record {
  name = "edit_image";
  description =
      "Edit an existing image based on a text prompt. Returns a URL of the edited image. Use this for iterative refinement after generate_image, or to modify user-provided images.";
  category = "image";
  parameters =
      object
        ((
          "prompt",
          (plain "string"
              "Describe WHAT to change, not the whole image. Be specific: 'change the sky to sunset orange' is better than 'make it look nice'. For additions use 'add ...', for removals use 'remove ...'."),
        )
          ∷ (
            "image_url",
            (plain "string"
                "URL of the source image to edit. Tip: use a URL returned by generate_image for iterative refinement"),
          )
          ∷ (
            "size",
            (choice "Output image dimensions. Match the source aspect ratio to avoid distortion"
                ("1024x1024" ∷ "1024x1536" ∷ "1536x1024" ∷ []) "1024x1024"),
          )
          ∷ [])
        ("prompt" ∷ "image_url" ∷ []) [];
}

-- `UnderstandImage`
unfoldable pub understand_image : ToolDef
understand_image = record {
  name = "understand_image";
  description =
      "Analyze and describe an image using a vision-capable model. Returns a text description of the image content. Use this to understand images when the primary model does not support vision input.";
  category = "vision";
  parameters =
      object
        ((
          "image_url",
          (plain "string"
              "URL of the image to analyze, or a base64 data URI (data:image/...;base64,...)"),
        )
          ∷ (
            "prompt",
            (defaulted "string"
                "Instructions for the analysis. Default: describe the image in detail"
                "Describe this image in detail. Include: scene description, visible objects, any text, people and their actions, lighting/mood, and any notable elements."),
          )
          ∷ [])
        ("image_url" ∷ []) [];
}

-- `Generate3D`
unfoldable pub generate_3d : ToolDef
generate_3d = record {
  name = "generate_3d";
  description =
      "Generate a 3D model from a text prompt, a reference image, or 2-4 multi-view images. Returns a URL to the model file (GLB/FBX/OBJ/USDZ). Provide exactly one of: prompt (text-to-3D), image_url (single image), or image_urls (multi-view reconstruction).";
  category = "3d";
  parameters =
      object
        ((
          "prompt",
          (plain "string"
              "Describe the 3D object: shape, material, surface detail, and scale. 'a low-poly wooden treasure chest with iron hinges and a rusty lock' is better than 'a chest'. Keep under 1024 chars. Mutually exclusive with image_url / image_urls."),
        )
          ∷ (
            "image_url",
            (plain "string"
                "URL of a single reference image for image-to-3D. Use a clean, well-lit photo with the object centered on a simple background for best results"),
          )
          ∷ (
            "image_urls",
            (array_of "string"
                "URLs of 2-4 multi-view images of the same object (e.g. front, side, back, top) for high-precision 3D reconstruction"),
          )
          ∷ ("mode", (choice "Generation quality mode" ("preview" ∷ "refine" ∷ []) "preview"))
          ∷ (
            "art_style",
            (choice "Art style for the generated model"
                ("realistic" ∷ "cartoon" ∷ "low-poly" ∷ "sculpture" ∷ "pbr" ∷ []) ""),
          )
          ∷ ("negative_prompt", (plain "string" "What to avoid in the generated model"))
          ∷ ("topology", (choice "Mesh topology preference" ("quad" ∷ "triangle" ∷ []) ""))
          ∷ ("target_polycount", (plain "integer" "Target polygon count for the mesh"))
          ∷ (
            "texture_quality",
            (choice "Texture detail level (Tripo). Omit to generate a no-texture mesh."
                ("standard" ∷ "detailed" ∷ []) ""),
          )
          ∷ (
            "geometry_quality",
            (choice
                "Geometry precision level (Tripo H3.1 only). 'ultra' enables max-fidelity mesh up to 2M faces."
                ("standard" ∷ "ultra" ∷ []) ""),
          )
          ∷ [])
        [] (("prompt" ∷ "image_url" ∷ "image_urls" ∷ []) ∷ []);
}
