-- ===== src/Size/Snap.antt =====
-- workflow/resolve/size.go: the supported size that is nearest to a wanted one.
pub mod Nearest
pub mod Supported
use aigo.Base.{
  ℕ, zero, suc, String, Bool, true, false, not, ◌&&◌, ◌||◌, ◌+◌, ◌-◌, ◌*◌, ◌/◌, ◌%◌, ◌^◌, Option,
  none, some, List, [], ◌∷◌, ltb, str_eq, if◌then◌else◌,
}
use aigo.Base.Int.{ℤ, pos, negsuc, is_pos}
use aigo.Base.Number.{mul64}
use aigo.Base.Scan.{match_pair, match_one, clamped}
use aigo.Size.{
  Dimensions, SizeSpec, no_size, is_zero, parse_size, parse_dimensions, to_wxh, is_colon, is_p,
}

-- What the metric uses of `math`: `Atan2(h, w)` for positive numbers, `Pi/4` and the epsilon 0.01, as
-- numbers of one unit. Every float64 is a multiple of 2 ^ -1074.
pub record Angles : Type 0 where
  pub atan2 : ℕ → ℕ → ℕ
  pub square : ℕ
  pub epsilon : ℕ

-- The 64 bits of an `int`.
bits : ℤ → ℕ
bits (pos n) = n
bits (negsuc n) = 2 ^ 64 - 1 - n

abbrev pub gap : ℕ → ℕ → ℕ
gap a b = (a - b) + (b - a)

-- `n / 9`, cut off towards zero, as its bits.
ninth : ℤ → ℕ
ninth (pos n) = n / 9
ninth (negsuc n) = (2 ^ 64 - suc n / 9) % 2 ^ 64

line_area : Option String → ℕ
unfolding ninth
line_area none = 0
line_area (some a) = (ninth (mul64 (clamped a) 16) * clamped a) % 2 ^ 64

area : Option Dimensions → String → ℕ
unfolding bits line_area
area (some d) resolution = (bits d.width * bits d.height) % 2 ^ 64
area none resolution =
    let estimate = line_area (match_one is_p resolution) in
    if str_eq resolution "" then 0 else estimate

-- `pixelArea`, as its 64 bits.
unfoldable pub pixel_area : SizeSpec → ℕ
unfolding area
pixel_area s = area s.dimensions s.resolution

-- `math.Abs(float64(a - b))` of two areas. The difference is wrapped to 64 bits; the float64 of it is
-- exact up to 2 ^ 53.
unfoldable pub area_gap : ℕ → ℕ → ℕ
area_gap a b = let r = (a + (2 ^ 64 - b)) % 2 ^ 64 in if ltb r (2 ^ 63) then r else 2 ^ 64 - r

-- `candidates`
unfoldable pub candidates_of : List String → List SizeSpec
candidates_of [] = []
candidates_of (entry ∷ rest) =
    let others = candidates_of rest in
    if is_zero (parse_size entry) then others else parse_size entry ∷ others

module _ (angles : Angles) where
  open angles use {atan2, square, epsilon}

  ratio_angle : Option (String × String) → ℕ
  ratio_angle none = square
  ratio_angle (some (w, h)) =
      if ltb 0 (clamped w) && ltb 0 (clamped h) then atan2 (clamped h) (clamped w) else square

  side_angle : ℤ → ℤ → ℕ → ℕ
  side_angle (pos (suc w)) (pos (suc h)) other = atan2 (suc h) (suc w)
  side_angle _ _ other = other

  angle_of : Option Dimensions → ℕ → ℕ
  unfolding side_angle
  angle_of none other = other
  angle_of (some d) other = side_angle d.width d.height other

  -- `aspectAngle`
  unfoldable pub aspect_angle : SizeSpec → ℕ
  unfolding angle_of ratio_angle
  aspect_angle s = angle_of s.dimensions (
      let asked = ratio_angle (match_pair is_colon s.aspect_ratio) in
      if str_eq s.aspect_ratio "" then square else asked)

  -- `angleDiff` and `pixelDiff` of a candidate
  unfoldable pub angle_diff : SizeSpec → SizeSpec → ℕ
  angle_diff s c = gap (aspect_angle c) (aspect_angle s)

  unfoldable pub pixel_diff : SizeSpec → SizeSpec → ℕ
  pixel_diff s c = area_gap (pixel_area c) (pixel_area s)

  -- The test of the loop: a smaller angle, or about the same angle and a smaller area.
  unfoldable pub is_nearer : SizeSpec → SizeSpec → SizeSpec → Bool
  is_nearer s c best =
      ltb (angle_diff s c + epsilon) (angle_diff s best)
      || (ltb (gap (angle_diff s c) (angle_diff s best)) epsilon
          && ltb (pixel_diff s c) (pixel_diff s best))

  -- The loop, from the best candidate so far. The first candidate is always taken, since its angle is
  -- below `math.MaxFloat64`.
  nearest : SizeSpec → SizeSpec → List SizeSpec → SizeSpec
  unfolding is_nearer
  nearest s best [] = best
  nearest s best (c ∷ cs) = nearest s (if is_nearer s c best then c else best) cs

  among : SizeSpec → List SizeSpec → SizeSpec
  unfolding nearest
  among s [] = s
  among s (c ∷ cs) = nearest s c cs

  -- `SnapTo`
  unfoldable pub snap_to : SizeSpec → List String → SizeSpec
  unfolding among candidates_of
  snap_to s supported = if is_zero s then s else among s (candidates_of supported)

  abbrev first_or : String → List String → String
  first_or other [] = other
  first_or other (s ∷ ss) = s

  size_or_default : String → String
  size_or_default s = if str_eq s "" then "1024x1024" else s

  -- `NormalizeImageSize`
  unfoldable pub normalize_image_size : List String → ℤ → ℤ → String
  unfolding snap_to size_or_default
  normalize_image_size supported w h =
      if is_zero (parse_dimensions w h)
      then first_or "1024x1024" supported
      else size_or_default (to_wxh (snap_to (parse_dimensions w h) supported))

  sides_or : Option Dimensions → ℤ × ℤ → ℤ × ℤ
  sides_or none other = other
  sides_or (some d) other = (d.width, d.height)

  first_sides : List String → ℤ × ℤ → ℤ × ℤ
  unfolding sides_or
  first_sides [] other = other
  first_sides (s ∷ ss) other = sides_or (parse_size s).dimensions other

  -- `NormalizeVideoSize`
  unfoldable pub normalize_video_size : List String → ℤ → ℤ → ℤ × ℤ
  unfolding snap_to sides_or first_sides
  normalize_video_size supported w h =
      if is_zero (parse_dimensions w h)
      then first_sides supported (w, h)
      else sides_or (snap_to (parse_dimensions w h) supported).dimensions (w, h)
