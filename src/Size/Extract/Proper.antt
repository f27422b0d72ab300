-- ===== src/Size/Extract/Proper.antt =====
-- workflow/resolve/size.go: an extracted size never has a side that is not positive.
use aigo.Base.{
  String, Bool, true, false, ◌&&◌, Option, none, some, List, [], ◌∷◌, first_some, Bool-cases, inl,
  inr, if◌then◌else◌,
}
use aigo.Base.Int.{ℤ, is_pos}
use aigo.Workflow.{Node, Graph, Floats}
use aigo.Resolve.{or_else}
use aigo.Size.{Dimensions, SizeSpec, is_zero, parse_size}
use aigo.Size.Proper.{IsProper, PositiveSides, parse_dimensions-IsProper, parse_size-IsProper}
use aigo.Size.Extract.{
  ToUpper, extract_image_size_spec, extract_video_size_spec, image_node, video_node, size_text,
  ratio_text, positive_sides, overlay_ratio, overlay_resolution, latent_size, or_zero, dressed,
  option_sides, fill_size, parse_text, keep_nonzero, resolution_text, unless_zero,
}

-- A size that was found has positive sides.
abbrev IsFine : Option SizeSpec → Type 0
IsFine none = Unit
IsFine (some s) = IsProper s

or_else-IsFine : (a b : Option SizeSpec) → IsFine a → IsFine b → IsFine (or_else a b)
or_else-IsFine none b p q = q
or_else-IsFine (some s) b p q = p

or_zero-IsProper : (o : Option SizeSpec) → IsFine o → IsProper (or_zero o)
unfolding or_zero
or_zero-IsProper none p = tt
or_zero-IsProper (some s) p = p

first_some-IsFine :
    {A : Type 0} (f : A → Option SizeSpec)
    → ((a : A) → IsFine (f a))
    → (xs : List A) → IsFine (first_some f xs)
first_some-IsFine f fine [] = tt
first_some-IsFine f fine (x ∷ xs) = first_answer (f x) _ (fine x) (first_some-IsFine f fine xs)
  where
    first_answer :
        (o : Option SizeSpec) (rest : Option SizeSpec)
        → IsFine o
        → IsFine rest
        → IsFine (elim o [ some b ↦ some b | none ↦ rest ])
    first_answer none rest p q = q
    first_answer (some s) rest p q = p

unless_zero-IsFine : (s : SizeSpec) → IsProper s → IsFine (unless_zero s)
unfolding unless_zero
unless_zero-IsFine s p = elim (Bool-cases (is_zero s)) [ inl e ↦ rw e tt | inr e ↦ rw e p ]

size_text-IsFine : (o : Option String) → IsFine (size_text o)
unfolding size_text
size_text-IsFine none = tt
size_text-IsFine (some s) = unless_zero-IsFine (parse_size s) (parse_size-IsProper s)

ratio_text-IsFine : (o : Option String) → IsFine (ratio_text o)
unfolding ratio_text
ratio_text-IsFine none = tt
ratio_text-IsFine (some s) = tt

positive_sides-IsFine : (w h : Option ℤ) → IsFine (positive_sides w h)
unfolding positive_sides
positive_sides-IsFine none h = tt
positive_sides-IsFine (some w) none = tt
positive_sides-IsFine (some w) (some h) = elim (Bool-cases (is_pos w && is_pos h)) [
  | inl e ↦ rw e (parse_dimensions-IsProper w h)
  | inr e ↦ rw e tt
]

dressed-IsFine :
    (f : SizeSpec → SizeSpec) (o : Option SizeSpec)
    → ((s : SizeSpec) → IsProper s → IsProper (f s))
    → IsFine o
    → IsFine (dressed f o)
unfolding dressed
dressed-IsFine f none keep p = tt
dressed-IsFine f (some s) keep p = keep s p

overlay_ratio-IsProper :
    (o : Option String) (s : SizeSpec) → IsProper s → IsProper (overlay_ratio o s)
unfolding overlay_ratio
overlay_ratio-IsProper none s p = p
overlay_ratio-IsProper (some ar) s p = p

latent_size-IsFine : (floating : Floats) (g : Graph) → IsFine (latent_size floating g)
unfolding latent_size
latent_size-IsFine floating g = search (first_some-IsFine, positive_sides-IsFine)

option_sides-IsFine : (floating : Floats) (g : Graph) → IsFine (option_sides floating g)
unfolding option_sides
option_sides-IsFine floating g = search positive_sides-IsFine

module _ (to_upper : ToUpper) (floating : Floats) where
  overlay_resolution-IsProper :
      (o : Option String) (s : SizeSpec)
      → IsProper s
      → IsProper (overlay_resolution to_upper floating o s)
  unfolding overlay_resolution
  overlay_resolution-IsProper none s p = p
  overlay_resolution-IsProper (some r) s p = p

  fill_size-IsProper :
      (o : Option String) (s : SizeSpec) → IsProper s → IsProper (fill_size to_upper floating o s)
  unfolding fill_size
  fill_size-IsProper none s p = p
  fill_size-IsProper (some t) s p = go (parse_size t).dimensions (parse_size-IsProper t)
    where
      go : (d : Option Dimensions) → PositiveSides d → PositiveSides (or_else d s.dimensions)
      go none q = p
      go (some d) q = q

  overlays-IsProper :
      (res ar : Option String) (s : SizeSpec)
      → IsProper s
      → IsProper (overlay_resolution to_upper floating res (overlay_ratio ar s))
  overlays-IsProper res ar s p =
      overlay_resolution-IsProper res (overlay_ratio ar s) (overlay_ratio-IsProper ar s p)

  image_node-IsFine : (n : Node) → IsFine (image_node to_upper floating n)
  unfolding image_node
  image_node-IsFine n = search (
    or_else-IsFine, dressed-IsFine, overlays-IsProper, overlay_resolution-IsProper,
    size_text-IsFine, ratio_text-IsFine,
  )

  filled-IsProper :
      (b : Bool) (o : Option String) (s : SizeSpec)
      → IsProper s
      → IsProper (if b then fill_size to_upper floating o s else s)
  filled-IsProper true o s p = fill_size-IsProper o s p
  filled-IsProper false o s p = p

  video_node-IsFine : (n : Node) → IsFine (video_node to_upper floating n)
  unfolding video_node
  video_node-IsFine n = search (
    unless_zero-IsFine, overlays-IsProper, filled-IsProper, or_zero-IsProper, positive_sides-IsFine,
  )

  keep_nonzero-IsFine : (o : Option SizeSpec) → IsFine o → IsFine (keep_nonzero to_upper floating o)
  unfolding keep_nonzero
  keep_nonzero-IsFine none p = tt
  keep_nonzero-IsFine (some s) p = unless_zero-IsFine s p

  parse_text-IsFine : (o : Option String) → IsFine (parse_text to_upper floating o)
  unfolding parse_text
  parse_text-IsFine none = tt
  parse_text-IsFine (some s) = parse_size-IsProper s

  resolution_text-IsFine : (o : Option String) → IsFine (resolution_text to_upper floating o)
  unfolding resolution_text overlay_resolution
  resolution_text-IsFine none = tt
  resolution_text-IsFine (some s) = tt

  -- A size that `ExtractImageSizeSpec` or `ExtractVideoSizeSpec` gives has no dimensions, or positive ones.
  pub extracted-IsProper :
      (g : Graph)
      → IsProper (extract_image_size_spec to_upper floating g)
        × IsProper (extract_video_size_spec to_upper floating g)
  unfolding extract_image_size_spec extract_video_size_spec
  extracted-IsProper g =
      search
        (
          or_zero-IsProper, or_else-IsFine, first_some-IsFine, image_node-IsFine, video_node-IsFine,
          keep_nonzero-IsFine, dressed-IsFine, overlays-IsProper, overlay_resolution-IsProper,
          size_text-IsFine, ratio_text-IsFine, parse_text-IsFine, resolution_text-IsFine,
          option_sides-IsFine, latent_size-IsFine,
        )
        depth 12
