-- ===== src/Size/Extract/Order.antt =====
-- workflow/resolve/size.go: the extracted sizes do not depend on the order of the graph's map.
use aigo.Base.{◌≡◌, refl, [], ◌∷◌}
use aigo.Workflow.{Graph, Floats}
use aigo.Workflow.Order.{SameGraph, find_by_class_type-SameGraph}
use aigo.Resolve.Options.{options-SameGraph}
use aigo.Size.Extract.{
  ToUpper, extract_image_size_spec, extract_video_size_spec, latent_size, option_sides,
}

module _ (to_upper : ToUpper) (floating : Floats) (g h : Graph) (same : SameGraph g h) where
  sides-SameGraph : option_sides floating g ≡ option_sides floating h
  unfolding option_sides
  sides-SameGraph =
      rw
        (
          (options-SameGraph floating g h ("width" ∷ []) same).1,
          (options-SameGraph floating g h ("height" ∷ []) same).1,
        )
        refl

  latent-SameGraph : latent_size floating g ≡ latent_size floating h
  unfolding latent_size
  latent-SameGraph = rw (find_by_class_type-SameGraph g h "EmptyLatentImage" same) refl

  -- `ExtractImageSizeSpec` and `ExtractVideoSizeSpec` give the same size for every order of the map.
  pub extracted-SameGraph :
      (extract_image_size_spec to_upper floating g ≡ extract_image_size_spec to_upper floating h)
      × (extract_video_size_spec to_upper floating g ≡ extract_video_size_spec to_upper floating h)
  unfolding extract_image_size_spec extract_video_size_spec
  extracted-SameGraph = (
    rw
        (
          find_by_class_type-SameGraph g h "ImageOptions" same,
          (options-SameGraph floating g h ("size" ∷ []) same).0,
          (options-SameGraph floating g h ("aspect_ratio" ∷ []) same).0,
          sides-SameGraph,
          latent-SameGraph,
        )
        refl,
    rw
        (
          find_by_class_type-SameGraph g h "VideoOptions" same,
          (options-SameGraph floating g h ("size" ∷ []) same).0,
          (options-SameGraph floating g h ("aspect_ratio" ∷ []) same).0,
          (options-SameGraph floating g h ("resolution" ∷ []) same).0,
          sides-SameGraph,
          latent-SameGraph,
        )
        refl,
  )
