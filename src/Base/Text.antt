-- ===== src/Base/Text.antt =====
-- Go's `strings` functions on texts. A text is its code points; a byte index of the source is only
-- ever taken at an ASCII separator, where cutting bytes and cutting code points agree.
use Prim.Native.Char.{code}
use Prim.Native.Nat.{ℕ}
use Prim.Native.String.{String}
use mathlib.Core.Path.{◌≡◌, refl, ap₂}
use mathlib.Core.Bool.{Bool, true, false, ◌||◌, ◌&&◌}
use mathlib.Core.Logic.{◌⊎◌, inl, inr}
use native.Mathlib.Omega.{arith}
use text.Mathlib.TextEquality.{Char-path}
use aigo.Base.Tests.{ltb, leb, ◌==◌, if◌then◌else◌}

-- The order of `sort.Strings`: UTF-8 keeps the order of the code points.
unfoldable pub str_leb : String → String → Bool
str_leb String.[] t = true
str_leb (String.◌∷◌ c s) String.[] = false
str_leb (String.◌∷◌ c s) (String.◌∷◌ d t) =
    if ltb (code c) (code d) then true else if ltb (code d) (code c) then false else str_leb s t

pub str_leb-total : (s t : String) → (str_leb s t ≡ true) ⊎ (str_leb t s ≡ true)
unfolding str_leb
str_leb-total String.[] t = inl refl
str_leb-total (String.◌∷◌ c s) String.[] = inr refl
str_leb-total (String.◌∷◌ c s) (String.◌∷◌ d t) = ground (arith, str_leb-total s t)

pub str_leb_trans : (s t u : String) → str_leb s t ≡ true → str_leb t u ≡ true → str_leb s u ≡ true
unfolding str_leb
str_leb_trans String.[] t u h k = refl
str_leb_trans (String.◌∷◌ c s) String.[] u h k = ground arith
str_leb_trans (String.◌∷◌ c s) (String.◌∷◌ d t) String.[] h k = ground arith
str_leb_trans (String.◌∷◌ c s) (String.◌∷◌ d t) (String.◌∷◌ e u) h k =
    ground (arith, str_leb_trans s t u)

pub str_leb_antisymm : (s t : String) → str_leb s t ≡ true → str_leb t s ≡ true → s ≡ t
unfolding str_leb
str_leb_antisymm String.[] String.[] h k = refl
str_leb_antisymm String.[] (String.◌∷◌ d t) h k = ground arith
str_leb_antisymm (String.◌∷◌ c s) String.[] h k = ground arith
str_leb_antisymm (String.◌∷◌ c s) (String.◌∷◌ d t) h k =
    ap₂ String.◌∷◌ (Char-path c d (ground arith))
      (str_leb_antisymm s t (ground arith) (ground arith))

-- `unicode.IsSpace`
unfoldable pub is_space : ℕ → Bool
is_space c =
    (leb 9 c && leb c 13)
    || c == 32
    || c == 0x85
    || c == 0xA0
    || c == 0x1680
    || (leb 0x2000 c && leb c 0x200a)
    || c == 0x2028
    || c == 0x2029
    || c == 0x202f
    || c == 0x205f
    || c == 0x3000

-- The tests of the source on `strings.TrimSpace(s) == ""`: every code point is a space.
unfoldable pub is_blank : String → Bool
is_blank String.[] = true
is_blank (String.◌∷◌ c s) = is_space (code c) && is_blank s

unfoldable pub trim_left : String → String
trim_left String.[] = ""
trim_left (String.◌∷◌ c s) =
    let rest = trim_left s in if is_space (code c) then rest else String.◌∷◌ c s

unfoldable pub trim_right : String → String
trim_right String.[] = ""
trim_right (String.◌∷◌ c s) = if is_blank (String.◌∷◌ c s) then "" else String.◌∷◌ c (trim_right s)

-- `strings.TrimSpace`
unfoldable pub trim_space : String → String
unfolding trim_left trim_right
trim_space s = trim_right (trim_left s)

is_blank-trim_right : (s : String) → is_blank s ≡ true → trim_right s ≡ ""
unfolding trim_right
is_blank-trim_right String.[] h = refl
is_blank-trim_right (String.◌∷◌ c s) h = rw h

is_blank-trim_left : (s : String) → is_blank s ≡ true → trim_left s ≡ ""
unfolding is_blank trim_left
is_blank-trim_left String.[] h = refl
is_blank-trim_left (String.◌∷◌ c s) h = ground (arith, is_blank-trim_left s)

-- The test `strings.TrimSpace(s) == ""` is the test that every code point is a space.
pub trim_space-blank : (s : String) → is_blank s ≡ true → trim_space s ≡ ""
unfolding trim_space
trim_space-blank s h = rw (is_blank-trim_left s h)
