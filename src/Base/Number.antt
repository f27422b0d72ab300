-- ===== src/Base/Number.antt =====
-- `strconv.Atoi`, `strconv.Itoa` on small counters, and 64-bit wrap-around.
use Prim.Native.Char.{code}
use Prim.Native.Nat.{ℕ, zero, suc, ◌+◌, ◌-◌, ◌*◌, ◌%◌, ◌^◌}
use Prim.Native.String.{String}
use mathlib.Core.Path.{◌≡◌, refl}
use mathlib.Core.Bool.{◌&&◌}
use mathlib.Core.Option.{Option, none, some}
use aigo.Base.Tests.{ltb, leb, ◌==◌, if◌then◌else◌}
use aigo.Base.Int.{ℤ, pos, negsuc}

-- The value of a run of decimal digits, added to what was read before.
unfoldable pub digits : ℕ → String → Option ℕ
digits n String.[] = some n
digits n (String.◌∷◌ c s) =
    let rest = digits (n * 10 + (code c - 48)) s in
    if leb 48 (code c) && leb (code c) 57 then rest else none

-- At least one digit.
unfoldable pub unsigned : String → Option ℕ
unfolding digits
unsigned String.[] = none
unsigned (String.◌∷◌ c s) = digits 0 (String.◌∷◌ c s)

abbrev non_negative : Option ℕ → Option ℤ
non_negative none = none
non_negative (some n) = if ltb n (2 ^ 63) then some (pos n) else none

abbrev negative : Option ℕ → Option ℤ
negative none = none
negative (some zero) = some (pos 0)
negative (some (suc n)) = if ltb n (2 ^ 63) then some (negsuc n) else none

-- `strconv.Atoi`: an optional sign, decimal digits, and the range of `int`.
unfoldable pub atoi : String → Option ℤ
unfolding unsigned
atoi String.[] = none
atoi (String.◌∷◌ c s) =
    if code c == 43
    then non_negative (unsigned s)
    else if code c == 45
    then negative (unsigned s)
    else non_negative (unsigned (String.◌∷◌ c s))

-- `time.Duration(math.Pow(2, float64(i)))`. Go leaves open what a power gives that does not fit: there
-- the bits are those of the parameter.
unfoldable pub power : (ℕ → ℕ) → ℕ → ℕ
power wide i = if ltb i 63 then 2 ^ i else wide i

-- An `int64` product of two factors, given by their bits, wrapped to 64 bits.
unfoldable pub mul64 : ℕ → ℕ → ℤ
mul64 a b = let r = (a * b) % 2 ^ 64 in if ltb r (2 ^ 63) then pos r else negsuc (2 ^ 64 - 1 - r)

atoi_examples :
    (atoi "120" ≡ some (pos 120))
    × (atoi "-1" ≡ some (negsuc 0))
    × (atoi "1x" ≡ none)
    × (atoi "9223372036854775808" ≡ none)
unfolding atoi
atoi_examples = (refl, refl, refl, refl)
