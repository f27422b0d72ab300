-- ===== src/Base/Int.antt =====
-- Go's `int` as a signed integer over the native numbers, and the finite `float64` values.
use Prim.Native.Nat.{ℕ, zero, suc, ◌/◌, ◌^◌}
use mathlib.Core.Bool.{Bool, true, false}
use aigo.Base.Tests.{ltb, leb}

-- `negsuc n` is -(n + 1).
pub data ℤ : Type 0 where
  pos : ℕ → ℤ
  negsuc : ℕ → ℤ

-- `a > 0`
abbrev pub is_pos : ℤ → Bool
is_pos (pos n) = ltb 0 n
is_pos (negsuc n) = false

-- `a <= b`
abbrev pub leb_ℤ : ℤ → ℤ → Bool
leb_ℤ (pos a) (pos b) = leb a b
leb_ℤ (pos a) (negsuc b) = false
leb_ℤ (negsuc a) (pos b) = true
leb_ℤ (negsuc a) (negsuc b) = leb b a

-- A finite `float64`: `num / 2 ^ shift`.
pub record Float64 : Type 0 where
  pub num : ℤ
  pub shift : ℕ

-- `float64(n)`, exact up to 2 ^ 53.
abbrev pub of_int : ℤ → Float64
of_int n = record { num = n; shift = 0 }

-- `f > 0`
abbrev pub is_pos_float : Float64 → Bool
is_pos_float f = is_pos f.num

negated : ℕ → ℤ
negated zero = pos 0
negated (suc n) = negsuc n

-- `int(f)`: the fraction is cut off towards zero.
truncate : ℤ → ℕ → ℤ
unfolding negated
truncate (pos n) k = pos (n / 2 ^ k)
truncate (negsuc n) k = negated (suc n / 2 ^ k)

unfoldable pub to_int : Float64 → ℤ
unfolding truncate
to_int f = truncate f.num f.shift
