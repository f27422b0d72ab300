-- ===== src/Size/Extract.antt =====
-- workflow/resolve/size.go: the size that a graph asks for, from its nodes and its options.
pub mod Order
pub mod Proper
use aigo.Base.{
  String, Bool, true, false, not, ◌&&◌, Option, none, some, [], ◌∷◌, first_some, str_eq,
  if◌then◌else◌,
}
use aigo.Base.Int.{ℤ, is_pos}
use aigo.Base.Text.{trim_space}
use aigo.Workflow.{Node, NodeRef, Graph, Floats, find_by_class_type, string_input, int_input}
use aigo.Resolve.{string_option, int_option, or_else}
use aigo.Size.{Dimensions, SizeSpec, no_size, is_none, is_zero, parse_size, parse_dimensions}

-- `strings.ToUpper`
abbrev pub ToUpper : Type 0
ToUpper = String → String

-- `ok && s != ""`
unfoldable pub non_empty : Option String → Option String
non_empty none = none
non_empty (some s) = if str_eq s "" then none else some s

unless_zero : SizeSpec → Option SizeSpec
unless_zero s = if is_zero s then none else some s

-- `spec := ParseSize(s)` if it is not zero.
size_text : Option String → Option SizeSpec
unfolding unless_zero
size_text none = none
size_text (some s) = unless_zero (parse_size s)

-- `SizeSpec{AspectRatio: ar}`
ratio_text : Option String → Option SizeSpec
ratio_text none = none
ratio_text (some ar) = some (record { dimensions = none; aspect_ratio = ar; resolution = "" })

-- `ParseDimensions(w, h)` if both are given and positive.
positive_sides : Option ℤ → Option ℤ → Option SizeSpec
positive_sides (some w) (some h) =
    if is_pos w && is_pos h then some (parse_dimensions w h) else none
positive_sides _ _ = none

-- `spec.AspectRatio = ar`
overlay_ratio : Option String → SizeSpec → SizeSpec
overlay_ratio none s = s
overlay_ratio (some ar) s = record s { aspect_ratio = ar }

-- The size texts that both functions end with: the nodes of class `EmptyLatentImage`.
latent_size : Floats → Graph → Option SizeSpec
unfolding positive_sides
latent_size floating g =
    first_some
      (λ (r : NodeRef).
        positive_sides (int_input floating r.node "width") (int_input floating r.node "height"))
      (find_by_class_type g "EmptyLatentImage")

or_zero : Option SizeSpec → SizeSpec
or_zero none = no_size
or_zero (some s) = s

-- The overlays on a size that was found.
dressed : (SizeSpec → SizeSpec) → Option SizeSpec → Option SizeSpec
dressed f none = none
dressed f (some s) = some (f s)

-- The two integer options.
option_sides : Floats → Graph → Option SizeSpec
unfolding positive_sides
option_sides floating g =
    positive_sides (int_option floating g ("width" ∷ [])) (int_option floating g ("height" ∷ []))

module _ (to_upper : ToUpper) (floating : Floats) where
  -- `normalizeResolution`
  unfoldable pub normalize_resolution : String → String
  normalize_resolution s = to_upper (trim_space s)

  -- `spec.Resolution = normalizeResolution(res)`
  overlay_resolution : Option String → SizeSpec → SizeSpec
  unfolding normalize_resolution
  overlay_resolution none s = s
  overlay_resolution (some r) s = record s { resolution = normalize_resolution r }

  -- The body of the loop over the `ImageOptions` nodes.
  image_node : Node → Option SizeSpec
  unfolding size_text ratio_text overlay_ratio overlay_resolution dressed
  image_node n =
      let ar = non_empty (string_input n "aspect_ratio") in
      let res = non_empty (string_input n "resolution") in
      or_else
        (dressed (λ s. overlay_resolution res (overlay_ratio ar s))
          (size_text (non_empty (string_input n "size"))))
        (dressed (overlay_resolution res) (ratio_text ar))

  -- `ExtractImageSizeSpec`
  unfoldable pub extract_image_size_spec : Graph → SizeSpec
  unfolding image_node size_text ratio_text option_sides latent_size or_zero
  extract_image_size_spec g = or_zero (
      or_else
        (first_some (λ (r : NodeRef). image_node r.node) (find_by_class_type g "ImageOptions"))
        (or_else (size_text (string_option g ("size" ∷ []))) (
          or_else (ratio_text (string_option g ("aspect_ratio" ∷ [])))
            (or_else (option_sides floating g) (latent_size floating g)))))

  -- A part that is not set yet.
  fill : String → String → String
  fill parsed own = if not (str_eq parsed "") && str_eq own "" then parsed else own

  -- The overlay of the "size" text.
  fill_size : Option String → SizeSpec → SizeSpec
  unfolding fill
  fill_size none s = s
  fill_size (some t) s = record {
    dimensions = or_else (parse_size t).dimensions s.dimensions;
    aspect_ratio = fill (parse_size t).aspect_ratio s.aspect_ratio;
    resolution = fill (parse_size t).resolution s.resolution;
  }

  -- The body of the loop over the `VideoOptions` nodes.
  video_node : Node → Option SizeSpec
  unfolding positive_sides or_zero fill_size overlay_ratio overlay_resolution unless_zero
  video_node n =
      let spec =
        or_zero (positive_sides (int_input floating n "width") (int_input floating n "height")) in
      let filled =
        if is_none spec.dimensions
        then fill_size (non_empty (string_input n "size")) spec
        else spec in
      unless_zero (
        overlay_resolution (non_empty (string_input n "resolution"))
          (overlay_ratio (non_empty (string_input n "aspect_ratio")) filled))

  -- `SizeSpec{Resolution: normalizeResolution(res)}`
  resolution_text : Option String → Option SizeSpec
  unfolding overlay_resolution
  resolution_text none = none
  resolution_text (some r) = some (overlay_resolution (some r) no_size)

  parse_text : Option String → Option SizeSpec
  parse_text none = none
  parse_text (some s) = some (parse_size s)

  keep_nonzero : Option SizeSpec → Option SizeSpec
  unfolding unless_zero
  keep_nonzero none = none
  keep_nonzero (some s) = unless_zero s

  -- `ExtractVideoSizeSpec`
  unfoldable pub extract_video_size_spec : Graph → SizeSpec
  unfolding video_node parse_text resolution_text keep_nonzero ratio_text overlay_ratio
      overlay_resolution dressed option_sides latent_size or_zero
  extract_video_size_spec g =
      let ar = string_option g ("aspect_ratio" ∷ []) in
      let res = string_option g ("resolution" ∷ []) in
      let dress : SizeSpec → SizeSpec = λ s. overlay_resolution res (overlay_ratio ar s) in
      or_zero (
        or_else
          (first_some (λ (r : NodeRef). video_node r.node) (find_by_class_type g "VideoOptions"))
          (or_else (keep_nonzero (dressed dress (parse_text (string_option g ("size" ∷ []))))) (
            or_else (dressed dress (option_sides floating g)) (
              or_else (dressed (overlay_resolution res) (ratio_text ar))
                (or_else (resolution_text res) (latent_size floating g))))))
