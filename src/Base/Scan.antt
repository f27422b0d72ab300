-- ===== src/Base/Scan.antt =====
-- Regular expressions of digits, spaces and marks, matched from the left, and texts put together.
use Prim.Native.Char.{Char, code}
use Prim.Native.Nat.{ℕ, ◌+◌, ◌*◌, ◌-◌, ◌^◌, ◌<◌}
use Prim.Native.String.{String}
use mathlib.Core.Path.{◌≡◌, refl, ap, ◌∙◌, sym}
use mathlib.Core.Logic.{inl, inr}
use text.Mathlib.TextEquality.{eq_iff}
use mathlib.Core.Bool.{false≢true, Bool, true, false, ◌&&◌, ◌||◌}
use mathlib.Core.Option.{Option, none, some}
use native.Mathlib.Omega.{arith}
use aigo.Base.Tests.{ltb, leb, ◌==◌, if◌then◌else◌, Bool-cases, str_eq}
use aigo.Base.Text.{is_space, is_blank, trim_space, trim_left, trim_right}
use aigo.Base.Number.{digits, unsigned}
use aigo.Base.Decimal.{itoa, unsigned-itoa}

infixr 45 ◌<>◌
abbrev pub ◌<>◌ : String → String → String
String.[] <> t = t
(String.◌∷◌ c s) <> t = String.◌∷◌ c (s <> t)

is_empty : String → Bool
is_empty String.[] = true
is_empty (String.◌∷◌ c s) = false

-- A text with a character is not empty.
pub cons_ne : (c : Char) (s : String) → str_eq (String.◌∷◌ c s) "" ≡ false
unfolding is_empty
cons_ne c s = elim (Bool-cases (str_eq (String.◌∷◌ c s) "")) [
  | inl e ↦ absurd (false≢true (ap is_empty ((eq_iff (String.◌∷◌ c s) "").0 e)))
  | inr e ↦ e
]

pub append-nil : (s : String) → s <> "" ≡ s
append-nil String.[] = refl
append-nil (String.◌∷◌ c s) = ap (String.◌∷◌ c) (append-nil s)

-- `\d` and `\s`
abbrev pub is_digit : ℕ → Bool
is_digit c = leb 48 c && leb c 57

abbrev pub is_gap : ℕ → Bool
is_gap c = c == 32 || c == 9 || c == 10 || c == 12 || c == 13

unfoldable pub take_digits : String → String
take_digits String.[] = ""
take_digits (String.◌∷◌ c s) =
    let rest = take_digits s in if is_digit (code c) then String.◌∷◌ c rest else ""

unfoldable pub drop_digits : String → String
drop_digits String.[] = ""
drop_digits (String.◌∷◌ c s) =
    let rest = drop_digits s in if is_digit (code c) then rest else String.◌∷◌ c s

unfoldable pub skip_gap : String → String
skip_gap String.[] = ""
skip_gap (String.◌∷◌ c s) =
    let rest = skip_gap s in if is_gap (code c) then rest else String.◌∷◌ c s

unfoldable pub all_digits : String → Bool
all_digits String.[] = true
all_digits (String.◌∷◌ c s) = is_digit (code c) && all_digits s

-- `^\d+$`
unfoldable pub is_number : String → Bool
unfolding all_digits
is_number String.[] = false
is_number (String.◌∷◌ c s) = all_digits (String.◌∷◌ c s)

after_gap : (ℕ → Bool) → String → String → Option (String × String)
after_gap mark a String.[] = none
after_gap mark a (String.◌∷◌ c s) =
    let b = skip_gap s in if mark (code c) && is_number b then some (a, b) else none

-- `^(\d+)\s*M\s*(\d+)$` for a mark M, and what its two groups match.
unfoldable pub match_pair : (ℕ → Bool) → String → Option (String × String)
unfolding after_gap take_digits drop_digits skip_gap is_number
match_pair mark s =
    let found = after_gap mark (take_digits s) (skip_gap (drop_digits s)) in
    if is_number (take_digits s) then found else none

ends_at : (ℕ → Bool) → String → Bool
ends_at mark String.[] = false
ends_at mark (String.◌∷◌ c s) = mark (code c) && str_eq s ""

-- `^(\d+)M$`
unfoldable pub match_one : (ℕ → Bool) → String → Option String
unfolding ends_at take_digits drop_digits is_number
match_one mark s =
    if is_number (take_digits s) && ends_at mark (drop_digits s) then some (take_digits s) else none

clip : Option ℕ → ℕ
clip none = 0
clip (some n) = if ltb n (2 ^ 63) then n else 2 ^ 63 - 1

-- `n, _ := strconv.Atoi(s)` on digits: past the range of `int` it is the largest `int`.
unfoldable pub clamped : String → ℕ
unfolding unsigned clip
clamped s = clip (unsigned s)

clip-some : (n : ℕ) → n < 2 ^ 63 → clip (some n) ≡ n
unfolding clip
clip-some n h = ground arith

pub clamped-itoa : (n : ℕ) → n < 2 ^ 63 → clamped (itoa n) ≡ n
unfolding clamped
clamped-itoa n h = ap clip (unsigned-itoa n) ∙ clip-some n h

all_digits-digits : (m n : ℕ) (s : String) → digits m s ≡ some n → all_digits s ≡ true
unfolding digits all_digits
all_digits-digits m n String.[] h = refl
all_digits-digits m n (String.◌∷◌ c s) h =
    ground (arith, all_digits-digits (m * 10 + (code c - 48)) n s)

number-unsigned : (n : ℕ) (s : String) → unsigned s ≡ some n → is_number s ≡ true
unfolding unsigned is_number
number-unsigned n String.[] h = absurd (ground arith)
number-unsigned n (String.◌∷◌ c s) h = all_digits-digits 0 n (String.◌∷◌ c s) h

-- What `strconv.Itoa` writes is all digits.
pub is_number-itoa : (n : ℕ) → is_number (itoa n) ≡ true
is_number-itoa n = number-unsigned n (itoa n) (unsigned-itoa n)

all_digits-number : (s : String) → is_number s ≡ true → all_digits s ≡ true
unfolding is_number all_digits
all_digits-number String.[] h = refl
all_digits-number (String.◌∷◌ c s) h = h

module _ (c : Char) (t : String) (other : is_digit (code c) ≡ false) where
  take_digits-append : (s : String) → all_digits s ≡ true → take_digits (s <> String.◌∷◌ c t) ≡ s
  unfolding take_digits all_digits
  take_digits-append String.[] h = ground (arith, other)
  take_digits-append (String.◌∷◌ d s) h = ground (arith, take_digits-append s)

  drop_digits-append :
      (s : String) → all_digits s ≡ true → drop_digits (s <> String.◌∷◌ c t) ≡ String.◌∷◌ c t
  unfolding drop_digits all_digits
  drop_digits-append String.[] h = ground (arith, other)
  drop_digits-append (String.◌∷◌ d s) h = ground (arith, drop_digits-append s)

not_digit-skip_gap :
    (c : Char) (t : String) → is_gap (code c) ≡ false → skip_gap (String.◌∷◌ c t) ≡ String.◌∷◌ c t
unfolding skip_gap
not_digit-skip_gap c t h = ground (arith, h)

skip_gap-number : (s : String) → is_number s ≡ true → skip_gap s ≡ s
unfolding skip_gap is_number all_digits
skip_gap-number String.[] h = refl
skip_gap-number (String.◌∷◌ c s) h = ground arith

after_gap-number :
    (mark : ℕ → Bool) (c : Char) (a b : String)
    → is_number b ≡ true
    → after_gap mark a (String.◌∷◌ c b) ≡ (if mark (code c) then some (a, b) else none)
unfolding after_gap
after_gap-number mark c a b h = ground (arith, h, skip_gap-number b h)

-- Two numbers around a character that is neither a digit nor a gap match if it is the mark.
pub match_pair-append :
    (mark : ℕ → Bool) (c : Char) (a b : String)
    → is_digit (code c) ≡ false
    → is_gap (code c) ≡ false
    → is_number a ≡ true
    → is_number b ≡ true
    → match_pair mark (a <> String.◌∷◌ c b) ≡ (if mark (code c) then some (a, b) else none)
unfolding match_pair
match_pair-append mark c a b other solid h k =
    rw
      (
        take_digits-append c b other a (all_digits-number a h),
        drop_digits-append c b other a (all_digits-number a h),
        not_digit-skip_gap c b solid,
        h,
      )
      (after_gap-number mark c a b k)

is_blank-append : (s t : String) → is_blank t ≡ false → is_blank (s <> t) ≡ false
unfolding is_blank
is_blank-append String.[] t h = h
is_blank-append (String.◌∷◌ c s) t h = ground (arith, is_blank-append s t h)

trim_right-digits :
    (c : Char) (s : String)
    → all_digits (String.◌∷◌ c s) ≡ true
    → trim_right (String.◌∷◌ c s) ≡ String.◌∷◌ c s
unfolding trim_right all_digits is_blank is_space
trim_right-digits c String.[] h = ground arith
trim_right-digits c (String.◌∷◌ d s) h = ground (arith, trim_right-digits d s)

is_blank-number : (s : String) → is_number s ≡ true → is_blank s ≡ false
unfolding is_number all_digits is_blank is_space
is_blank-number String.[] h = absurd (ground arith)
is_blank-number (String.◌∷◌ c s) h = ground arith

trim_right-number : (s : String) → is_number s ≡ true → trim_right s ≡ s
unfolding is_number
trim_right-number String.[] h = absurd (ground arith)
trim_right-number (String.◌∷◌ c s) h = trim_right-digits c s h

trim_right-append : (s t : String) → is_number t ≡ true → trim_right (s <> t) ≡ s <> t
unfolding trim_right
trim_right-append String.[] t h = trim_right-number t h
trim_right-append (String.◌∷◌ c s) t h =
    ground
      (arith, is_blank-append (String.◌∷◌ c s) t (is_blank-number t h), trim_right-append s t h)

trim_left-number : (s t : String) → is_number s ≡ true → trim_left (s <> t) ≡ s <> t
unfolding trim_left is_number all_digits is_space
trim_left-number String.[] t h = absurd (ground arith)
trim_left-number (String.◌∷◌ c s) t h = ground arith

append-cons : (a b : String) (c : Char) → a <> String.◌∷◌ c b ≡ (a <> String.◌∷◌ c "") <> b
append-cons String.[] b c = refl
append-cons (String.◌∷◌ d a) b c = ap (String.◌∷◌ d) (append-cons a b c)

-- A text that begins and ends with a number has no space to trim.
pub trim_space-append :
    (a b : String) (c : Char)
    → is_number a ≡ true
    → is_number b ≡ true
    → trim_space (a <> String.◌∷◌ c b) ≡ a <> String.◌∷◌ c b
unfolding trim_space
trim_space-append a b c h k =
    ap trim_right (trim_left-number a (String.◌∷◌ c b) h)
    ∙ ap trim_right (append-cons a b c)
    ∙ trim_right-append (a <> String.◌∷◌ c "") b k
    ∙ sym (append-cons a b c)
