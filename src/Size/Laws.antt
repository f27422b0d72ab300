-- ===== src/Size/Laws.antt =====
-- workflow/resolve/size.go: a size that is printed is read back.
use Prim.Native.Char.{Char, code}
use aigo.Base.{
  ℕ, zero, suc, String, Bool, true, false, ◌≡◌, refl, ◌∙◌, none, some, arith, str_eq, lt→ltb,
  if◌then◌else◌,
}
use aigo.Base.Decimal.{itoa}
use aigo.Base.Int.{pos}
use aigo.Base.Scan.{
  ◌<>◌, match_pair, is_number, is_digit, is_gap, is_number-itoa, clamped-itoa, match_pair-append,
  trim_space-append, cons_ne,
}
use aigo.Ratio.{colon, simplify_ratio, ratio}
use aigo.Ratio.Laws.{IsPositiveInt, ratio-BothPositive}
use aigo.Size.{
  SizeSpec, parse_size, parse_trimmed, parse_dimensions, to_wxh, to_w_asterisk_h, positive_pair,
  pixels, only_ratio, is_times, is_asterisk, is_colon,
}

pub nonempty-number : (s t : String) → is_number s ≡ true → str_eq (s <> t) "" ≡ false
unfolding is_number
nonempty-number String.[] t h = absurd (ground arith)
nonempty-number (String.◌∷◌ c s) t h = cons_ne c (s <> t)

parse_size-trimmed :
    (c : Char) (a b : String)
    → is_number a ≡ true
    → is_number b ≡ true
    → parse_size (a <> String.◌∷◌ c b) ≡ parse_trimmed (a <> String.◌∷◌ c b)
unfolding parse_size
parse_size-trimmed c a b h k =
    rw (trim_space-append a b c h k, nonempty-number a (String.◌∷◌ c b) h) refl

-- A pair that matches with two positive numbers.
positive_pair-itoa :
    (w h : ℕ) (f : ℕ → ℕ → SizeSpec) (rest : SizeSpec)
    → IsPositiveInt w
    → IsPositiveInt h
    → positive_pair (some (itoa w, itoa h)) f rest ≡ f w h
unfolding positive_pair
positive_pair-itoa w h f rest p q =
    rw (clamped-itoa w p.1, clamped-itoa h q.1, lt→ltb 0 w p.0, lt→ltb 0 h q.0) refl

module _ (w h : ℕ) (p : IsPositiveInt w) (q : IsPositiveInt h) where
  matched :
      (mark : ℕ → Bool) (c : Char)
      → is_digit (code c) ≡ false
      → is_gap (code c) ≡ false
      → match_pair mark (itoa w <> String.◌∷◌ c (itoa h))
        ≡ (if mark (code c) then some (itoa w, itoa h) else none)
  matched mark c other solid =
      match_pair-append mark c (itoa w) (itoa h) other solid (is_number-itoa w) (is_number-itoa h)

  trimmed :
      (c : Char)
      → parse_size (itoa w <> String.◌∷◌ c (itoa h))
        ≡ parse_trimmed (itoa w <> String.◌∷◌ c (itoa h))
  trimmed c = parse_size-trimmed c (itoa w) (itoa h) (is_number-itoa w) (is_number-itoa h)

  parse_size-times : parse_size (itoa w <> "x" <> itoa h) ≡ pixels w h
  unfolding parse_trimmed
  parse_size-times =
      trimmed _ ∙ rw (matched is_times _ refl refl) (positive_pair-itoa w h pixels _ p q)

  parse_size-asterisk : parse_size (itoa w <> "*" <> itoa h) ≡ pixels w h
  unfolding parse_trimmed
  parse_size-asterisk =
      trimmed _
      ∙ rw (matched is_times _ refl refl, matched is_asterisk _ refl refl)
          (positive_pair-itoa w h pixels _ p q)

  parse_size-colon : parse_size (colon w h) ≡ only_ratio w h
  unfolding parse_trimmed
  parse_size-colon =
      trimmed _
      ∙ rw
          (
            matched is_times _ refl refl,
            matched is_asterisk _ refl refl,
            matched is_colon _ refl refl,
          )
          (positive_pair-itoa w h only_ratio _ p q)

-- A positive width and height that are printed as "WxH" or as "W*H" are read back by `ParseSize`, and
-- so is the ratio that `simplifyRatio` writes for them.
pub parse_size-printed :
    (w h : ℕ)
    → IsPositiveInt w
    → IsPositiveInt h
    → (parse_size (to_wxh (parse_dimensions (pos w) (pos h))) ≡ parse_dimensions (pos w) (pos h))
      × (parse_size (to_w_asterisk_h (parse_dimensions (pos w) (pos h)))
          ≡ parse_dimensions (pos w) (pos h))
      × (parse_size (simplify_ratio (pos w) (pos h)) ≡ record {
        dimensions = none;
        aspect_ratio = simplify_ratio (pos w) (pos h);
        resolution = "";
      })
unfolding to_wxh to_w_asterisk_h parse_dimensions simplify_ratio pixels only_ratio
parse_size-printed zero h p q = absurd (omega (arith, p.0))
parse_size-printed (suc w) zero p q = absurd (omega (arith, q.0))
parse_size-printed (suc w) (suc h) p q = (
  parse_size-times (suc w) (suc h) p q,
  parse_size-asterisk (suc w) (suc h) p q,
  parse_size-colon (ratio (suc w) (suc h)).0 (ratio (suc w) (suc h)).1
      (ratio-BothPositive (suc w) (suc h) p q).0 (ratio-BothPositive (suc w) (suc h) p q).1,
)
