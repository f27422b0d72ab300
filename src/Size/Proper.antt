-- ===== src/Size/Proper.antt =====
-- workflow/resolve/size.go: the sizes that `ParseDimensions` and `ParseSize` give have positive sides.
use aigo.Base.{
  ℕ, zero, suc, String, true, ◌&&◌, ◌≡◌, Option, none, some, ltb, str_eq, Bool-cases, inl, inr,
  arith,
}
use aigo.Base.Int.{ℤ, pos, negsuc, is_pos}
use aigo.Base.Scan.{clamped, match_pair, match_one}
use aigo.Base.Text.{trim_space}
use aigo.Size.{
  Dimensions, SizeSpec, parse_size, parse_trimmed, parse_dimensions, positive_pair, pixels,
  only_ratio, only_resolution, is_times, is_asterisk, is_colon, is_p,
}

abbrev pub PositiveSides : Option Dimensions → Type 0
PositiveSides none = Unit
PositiveSides (some d) = (is_pos d.width ≡ true) × (is_pos d.height ≡ true)

-- The dimensions are absent or positive.
abbrev pub IsProper : SizeSpec → Type 0
IsProper s = PositiveSides s.dimensions

pub parse_dimensions-IsProper : (w h : ℤ) → IsProper (parse_dimensions w h)
unfolding parse_dimensions
parse_dimensions-IsProper (pos zero) h = tt
parse_dimensions-IsProper (pos (suc w)) (pos zero) = tt
parse_dimensions-IsProper (pos (suc w)) (pos (suc h)) = (ground arith, ground arith)
parse_dimensions-IsProper (pos (suc w)) (negsuc h) = tt
parse_dimensions-IsProper (negsuc w) h = tt

positive_pair-IsProper :
    (o : Option (String × String)) (f : ℕ → ℕ → SizeSpec) (rest : SizeSpec)
    → ((w h : ℕ) → IsProper (f w h))
    → IsProper rest
    → IsProper (positive_pair o f rest)
unfolding positive_pair
positive_pair-IsProper none f rest p q = q
positive_pair-IsProper (some (a, b)) f rest p q =
    elim (Bool-cases (ltb 0 (clamped a) && ltb 0 (clamped b))) [
      | inl e ↦ rw e (p (clamped a) (clamped b))
      | inr e ↦ rw e q
    ]

only_resolution-IsProper : (o : Option String) → IsProper (only_resolution o)
unfolding only_resolution
only_resolution-IsProper none = tt
only_resolution-IsProper (some a) = elim (Bool-cases (ltb 0 (clamped a))) [
  | inl e ↦ rw e tt
  | inr e ↦ rw e tt
]

parse_trimmed-IsProper : (s : String) → IsProper (parse_trimmed s)
unfolding parse_trimmed pixels only_ratio
parse_trimmed-IsProper s =
    positive_pair-IsProper (match_pair is_times s) pixels _
      (λ w h. parse_dimensions-IsProper (pos w) (pos h))
      (positive_pair-IsProper (match_pair is_asterisk s) pixels _
        (λ w h. parse_dimensions-IsProper (pos w) (pos h))
        (positive_pair-IsProper (match_pair is_colon s) only_ratio _ (λ w h. tt)
          (only_resolution-IsProper (match_one is_p s))))

pub parse_size-IsProper : (s : String) → IsProper (parse_size s)
unfolding parse_size
parse_size-IsProper s = elim (Bool-cases (str_eq (trim_space s) "")) [
  | inl e ↦ rw e tt
  | inr e ↦ rw e (parse_trimmed-IsProper (trim_space s))
]
