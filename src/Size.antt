-- ===== src/Size.antt =====
-- workflow/resolve/size.go: sizes read from texts and printed in the formats of the engines.
pub mod Extract
pub mod Laws
pub mod Proper
pub mod Snap
use aigo.Base.{
  ℕ, zero, suc, String, Bool, true, false, ◌&&◌, ◌||◌, Option, none, some, ltb, ◌==◌, str_eq,
  if◌then◌else◌,
}
use aigo.Base.Decimal.{itoa}
use aigo.Base.Int.{ℤ, pos, negsuc}
use aigo.Base.Scan.{◌<>◌, match_pair, match_one, clamped}
use aigo.Base.Text.{trim_space}
use aigo.Ratio.{colon, simplify_ratio, derive_resolution}

-- `Dimensions`
pub record Dimensions : Type 0 where
  pub width : ℤ
  pub height : ℤ

-- `SizeSpec`
pub record SizeSpec : Type 0 where
  pub dimensions : Option Dimensions
  pub aspect_ratio : String
  pub resolution : String

abbrev pub no_size : SizeSpec
no_size = record { dimensions = none; aspect_ratio = ""; resolution = "" }

abbrev pub is_none {ℓ} : {A : Type ℓ} → Option A → Bool
is_none none = true
is_none (some a) = false

-- `IsZero`
unfoldable pub is_zero : SizeSpec → Bool
is_zero s = is_none s.dimensions && str_eq s.aspect_ratio "" && str_eq s.resolution ""

-- `ParseDimensions`
unfoldable pub parse_dimensions : ℤ → ℤ → SizeSpec
parse_dimensions (pos (suc w)) (pos (suc h)) = record {
  dimensions = some (record { width = pos (suc w); height = pos (suc h) });
  aspect_ratio = simplify_ratio (pos (suc w)) (pos (suc h));
  resolution = derive_resolution (pos (suc w)) (pos (suc h));
}
parse_dimensions _ _ = no_size

-- The marks of `reWxH`, `reWAsteriskH`, `reRatio` and `reResolution`.
abbrev pub is_times : ℕ → Bool
is_times c = c == 120 || c == 88 || c == 215

abbrev pub is_asterisk : ℕ → Bool
is_asterisk c = c == 42

abbrev pub is_colon : ℕ → Bool
is_colon c = c == 58

abbrev pub is_p : ℕ → Bool
is_p c = c == 112 || c == 80

-- A match counts if both of its numbers are positive.
positive_pair : Option (String × String) → (ℕ → ℕ → SizeSpec) → SizeSpec → SizeSpec
positive_pair none f rest = rest
positive_pair (some (a, b)) f rest =
    if ltb 0 (clamped a) && ltb 0 (clamped b) then f (clamped a) (clamped b) else rest

pixels : ℕ → ℕ → SizeSpec
pixels w h = parse_dimensions (pos w) (pos h)

only_ratio : ℕ → ℕ → SizeSpec
only_ratio w h = record { dimensions = none; aspect_ratio = colon w h; resolution = "" }

only_resolution : Option String → SizeSpec
only_resolution none = no_size
only_resolution (some a) =
    if ltb 0 (clamped a)
    then record { dimensions = none; aspect_ratio = ""; resolution = itoa (clamped a) <> "P" }
    else no_size

-- `ParseSize` on a text without spaces around it.
parse_trimmed : String → SizeSpec
unfolding positive_pair pixels only_ratio only_resolution
parse_trimmed s = positive_pair (match_pair is_times s) pixels (
    positive_pair (match_pair is_asterisk s) pixels
      (positive_pair (match_pair is_colon s) only_ratio (only_resolution (match_one is_p s))))

-- `ParseSize`
unfoldable pub parse_size : String → SizeSpec
unfolding parse_trimmed trim_space
parse_size raw = let s = trim_space raw in if str_eq s "" then no_size else parse_trimmed s

-- `%d`
unfoldable pub print_int : ℤ → String
print_int (pos n) = itoa n
print_int (negsuc n) = "-" <> itoa (suc n)

joined : String → Option Dimensions → String
unfolding print_int
joined mark none = ""
joined mark (some d) = print_int d.width <> mark <> print_int d.height

-- `ToWxH`
unfoldable pub to_wxh : SizeSpec → String
unfolding joined
to_wxh s = joined "x" s.dimensions

-- `ToWAsteriskH`
unfoldable pub to_w_asterisk_h : SizeSpec → String
unfolding joined
to_w_asterisk_h s = joined "*" s.dimensions

derived : (ℤ → ℤ → String) → String → Option Dimensions → String
derived f text none = text
derived f text (some d) = if str_eq text "" then f d.width d.height else text

-- `ToAspectRatio`
unfoldable pub to_aspect_ratio : SizeSpec → String
unfolding derived
to_aspect_ratio s = derived simplify_ratio s.aspect_ratio s.dimensions

-- `ToResolution`
unfoldable pub to_resolution : SizeSpec → String
unfolding derived
to_resolution s = derived derive_resolution s.resolution s.dimensions

sides : Option Dimensions → ℤ × ℤ
sides none = (pos 0, pos 0)
sides (some d) = (d.width, d.height)

-- `ToWidthHeight`
unfoldable pub to_width_height : SizeSpec → ℤ × ℤ
unfolding sides
to_width_height s = sides s.dimensions
