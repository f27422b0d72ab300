-- ===== src/Base/Cut.antt =====
-- Texts cut at an ASCII mark, as `strings.Index`, `IndexByte`, `LastIndexByte`, `Split` and
-- `TrimPrefix` find it.
pub mod Heads
use Prim.Native.Char.{Char, code}
use Prim.Native.Nat.{ℕ}
use Prim.Native.String.{String}
use mathlib.Core.Path.{◌≡◌, refl, ap}
use mathlib.Core.Bool.{Bool, true, false, ◌||◌}
use mathlib.Core.List.{List, [], ◌∷◌}
use mathlib.Core.Option.{Option, none, some}
use native.Mathlib.Omega.{arith}
use aigo.Base.Tests.{◌==◌, if◌then◌else◌}
use aigo.Base.Scan.{◌<>◌}

-- Whether a text has the mark.
abbrev pub has_mark : ℕ → String → Bool
has_mark m String.[] = false
has_mark m (String.◌∷◌ c s) = code c == m || has_mark m s

abbrev pub after_char : Char → Option (String × String) → Option (String × String)
after_char c none = none
after_char c (some (a, b)) = some (String.◌∷◌ c a, b)

-- The texts before and after the first mark.
unfoldable pub cut : ℕ → String → Option (String × String)
cut m String.[] = none
cut m (String.◌∷◌ c s) =
    let rest = cut m s in if code c == m then some ("", s) else after_char c rest

abbrev pub last_of : Char → Bool → String → Option (String × String) → Option (String × String)
last_of c here s none = if here then some ("", s) else none
last_of c here s (some (a, b)) = some (String.◌∷◌ c a, b)

-- The texts before and after the last mark.
unfoldable pub cut_last : ℕ → String → Option (String × String)
cut_last m String.[] = none
cut_last m (String.◌∷◌ c s) = last_of c (code c == m) s (cut_last m s)

-- What follows a prefix.
unfoldable pub after_prefix : String → String → Option String
after_prefix String.[] s = some s
after_prefix (String.◌∷◌ p ps) String.[] = none
after_prefix (String.◌∷◌ p ps) (String.◌∷◌ c s) =
    let rest = after_prefix ps s in if code p == code c then rest else none

-- `strings.TrimPrefix`
unfoldable pub trim_prefix : String → String → String
unfolding after_prefix
trim_prefix s p = elim (after_prefix p s) [ none ↦ s | some rest ↦ rest ]

or_later : Char → Option String → Option (String × String) → Option (String × String)
or_later c none later = after_char c later
or_later c (some rest) later = some ("", rest)

-- The texts before and after the first occurrence of a text.
unfoldable pub cut_text : String → String → Option (String × String)
unfolding or_later after_prefix
cut_text p String.[] = none
cut_text p (String.◌∷◌ c s) = or_later c (after_prefix p (String.◌∷◌ c s)) (cut_text p s)

abbrev first_char : Char → List String → List String
first_char c [] = String.◌∷◌ c "" ∷ []
first_char c (s ∷ ss) = String.◌∷◌ c s ∷ ss

-- `strings.Split` at a mark
unfoldable pub split : ℕ → String → List String
split m String.[] = "" ∷ []
split m (String.◌∷◌ c s) =
    let rest = split m s in if code c == m then "" ∷ rest else first_char c rest

-- `strings.Join`
unfoldable pub join : String → List String → String
join mark [] = ""
join mark (s ∷ []) = s
join mark (s ∷ t ∷ ts) = s <> mark <> join mark (t ∷ ts)

pub cut-absent : (m : ℕ) (s : String) → has_mark m s ≡ false → cut m s ≡ none
unfolding cut
cut-absent m String.[] h = refl
cut-absent m (String.◌∷◌ c s) h = ground (arith, cut-absent m s)

pub cut_last-absent : (m : ℕ) (s : String) → has_mark m s ≡ false → cut_last m s ≡ none
unfolding cut_last
cut_last-absent m String.[] h = refl
cut_last-absent m (String.◌∷◌ c s) h = ground (arith, cut_last-absent m s)

-- The first mark is the one after a text without it.
pub cut-append :
    (m : ℕ) (c : Char) (a b : String)
    → code c ≡ m
    → has_mark m a ≡ false
    → cut m (a <> String.◌∷◌ c b) ≡ some (a, b)
unfolding cut
cut-append m c String.[] b e h = ground (arith, e)
cut-append m c (String.◌∷◌ d a) b e h = ground (arith, cut-append m c a b e)

-- The last mark is the one before a text without it.
pub cut_last-append :
    (m : ℕ) (c : Char) (a b : String)
    → code c ≡ m
    → has_mark m b ≡ false
    → cut_last m (a <> String.◌∷◌ c b) ≡ some (a, b)
unfolding cut_last
cut_last-append m c String.[] b e h = ground (arith, e, cut_last-absent m b h)
cut_last-append m c (String.◌∷◌ d a) b e h =
    ap (last_of d (code d == m) (a <> String.◌∷◌ c b)) (cut_last-append m c a b e h)

pub has_mark-append : (m : ℕ) (a b : String) → has_mark m (a <> b) ≡ (has_mark m a || has_mark m b)
has_mark-append m String.[] b = refl
has_mark-append m (String.◌∷◌ c a) b = ground (arith, has_mark-append m a b)

-- The scheme of a URI is what stands before the first "://", if it has no colon.
pub cut_text-scheme :
    (a b : String) → has_mark 58 a ≡ false → cut_text "://" (a <> "://" <> b) ≡ some (a, b)
unfolding cut_text
cut_text-scheme String.[] b h = refl
cut_text-scheme (String.◌∷◌ c a) b h = ground (arith, cut_text-scheme a b)

pub no_mark-append :
    (m : ℕ) (a b : String)
    → has_mark m a ≡ false
    → has_mark m b ≡ false
    → has_mark m (a <> b) ≡ false
no_mark-append m a b h k = ground (arith, has_mark-append m a b, h, k)
