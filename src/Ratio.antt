-- ===== src/Ratio.antt =====
-- workflow/resolve/size.go: the helpers on numbers, `gcd`, `simplifyRatio` and `deriveResolution`.
pub mod Laws
use mathlib.Core.Logic.{dite}
use mathlib.Core.WellFounded.{Acc, WellFounded}
use native.Mathlib.Decide.{dec_lt}
use aigo.Base.{
  ℕ, zero, suc, String, Bool, true, false, ◌&&◌, ◌||◌, ◌+◌, ◌-◌, ◌*◌, ◌/◌, ◌%◌, ◌^◌, ◌≤◌, ◌<◌, List,
  [], ◌∷◌, ltb, leb, ◌==◌, if◌then◌else◌, arith, Option, none, some, first_some,
}
use aigo.Base.Decimal.{itoa}
use aigo.Base.Int.{ℤ, pos, negsuc}
use aigo.Base.Scan.{◌<>◌}

-- `<` on the native numbers is well founded.
Acc-below : (k n : ℕ) → n < k → Acc ◌<◌ n
Acc-below zero n h = elim h [ ]
Acc-below (suc k) n h = Acc.intro n (λ m hm. Acc-below k m (omega arith))

lt_wf : WellFounded ◌<◌
unfolding Acc-below
lt_wf = record { apply = λ n. Acc-below (suc n) n (omega arith) }

-- `for b != 0 { a, b = b, a%b }`, by recursion on the proof that `b` is accessible.
gcd_loop : (a b : ℕ) → Acc ◌<◌ b → ℕ
gcd_loop a b (Acc.intro _ smaller) =
    dite (dec_lt 0 b) (λ h. gcd_loop b (a % b) (smaller (a % b) (omega arith))) (λ _. a)

-- `gcd`, which the source calls on positive numbers.
unfoldable pub gcd : ℕ → ℕ → ℕ
unfolding gcd_loop lt_wf
gcd a b = gcd_loop a b (lt_wf.apply b)

-- `fmt.Sprintf("%d:%d", a, b)`
abbrev pub colon : ℕ → ℕ → String
colon a b = itoa a <> ":" <> itoa b

-- Half of the remainder or more rounds up, to even at one half.
abbrev pub round_div : ℕ → ℕ → ℕ
round_div a b =
    if ltb (2 * (a % b)) b || (2 * (a % b) == b && (a / b) % 2 == 0) then a / b else a / b + 1

-- The float64 `float64(w) / float64(h)` in units of 2 ^ -53, for w and h up to 2 ^ 53. The unit in
-- the last place is 2 ^ -52 from 1 on and 2 ^ -53 below 1. Quotients outside of [1/2, 2) come out
-- outside of it too, where no ratio of the list is near.
unfoldable pub quotient : ℕ → ℕ → ℕ
quotient w h = if leb h w then 2 * round_div (w * 2 ^ 52) h else round_div (w * 2 ^ 53) h

-- The float64 0.02 in units of 2 ^ -58.
abbrev pub tolerance : ℕ
tolerance = 5_764_607_523_034_235

distance : ℕ → ℕ → ℕ
distance a b = (a - b) + (b - a)

-- `math.Abs(ratio - p/q) < 0.02`: near to `p/q` the difference of the two floats is exact.
unfoldable pub near : ℕ → ℕ → ℕ × ℕ → Bool
unfolding quotient distance
near w h (p, q) = ltb (distance (quotient w h) (quotient p q) * 2 ^ 5) tolerance

-- The `switch` of `simplifyRatio`, in its order.
abbrev pub well_known : List (ℕ × ℕ)
well_known = (16, 9) ∷ (9, 16) ∷ (4, 3) ∷ (3, 4) ∷ (3, 2) ∷ (2, 3) ∷ (1, 1) ∷ []

first_near : ℕ → ℕ → List (ℕ × ℕ) → ℕ × ℕ → ℕ × ℕ
unfolding near
first_near w h [] other = other
first_near w h (r ∷ rs) other = let rest = first_near w h rs other in if near w h r then r else rest

-- `w/d, h/d`
unfoldable pub reduced : ℕ → ℕ → ℕ × ℕ
unfolding gcd
reduced w h = (w / gcd w h, h / gcd w h)

-- The two numbers of the text that `simplifyRatio` makes of positive numbers.
unfoldable pub ratio : ℕ → ℕ → ℕ × ℕ
unfolding reduced first_near
ratio w h =
    let found = first_near w h well_known (reduced w h) in
    if leb (reduced w h).0 32 && leb (reduced w h).1 32 then reduced w h else found

-- `simplifyRatio`
unfoldable pub simplify_ratio : ℤ → ℤ → String
unfolding ratio itoa
simplify_ratio (pos (suc w)) (pos (suc h)) =
    colon (ratio (suc w) (suc h)).0 (ratio (suc w) (suc h)).1
simplify_ratio _ _ = ""

label_of : ℕ → String
label_of short =
    if leb 2160 short
    then "4K"
    else if leb 1440 short
    then "2K"
    else if leb 1080 short
    then "1080P"
    else if leb 720 short
    then "720P"
    else if leb 480 short
    then "480P"
    else ""

-- `deriveResolution`: the label_of of the shorter side.
unfoldable pub derive_resolution : ℤ → ℤ → String
unfolding label_of
derive_resolution (pos w) (pos h) = label_of (if ltb h w then h else w)
derive_resolution _ _ = ""
