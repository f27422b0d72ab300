-- ===== src/Base/Decimal.antt =====
-- `strconv.Itoa` on a natural number, and that `strconv.Atoi` reads it back.
use Prim.Native.Char.{Char, code}
use Prim.Native.Nat.{ℕ, zero, suc, ◌+◌, ◌-◌, ◌*◌, ◌/◌, ◌%◌, ◌≤◌, ◌<◌}
use Prim.Native.String.{String, char_at}
use mathlib.Core.Path.{◌≡◌, refl, ap, ◌∙◌, sym}
use mathlib.Core.Bool.{false}
use mathlib.Core.Option.{Option, none, some}
use native.Mathlib.Omega.{arith}
use aigo.Base.Tests.{ltb, leb, if◌then◌else◌, Bool-cases, ltb→lt}
use mathlib.Core.Logic.{inl, inr}
use aigo.Base.Number.{digits, unsigned}
use aigo.Base.Text.{is_space, is_blank}

digit : ℕ → Char
digit d = char_at "0123456789" d

-- The digits of `n` before `rest`, lowest first; `n + 1` units of fuel are enough.
decimal : ℕ → ℕ → String → String
unfolding digit
decimal zero n rest = rest
decimal (suc f) n rest =
    let more = decimal f (n / 10) (String.◌∷◌ (digit (n % 10)) rest) in
    if ltb n 10 then String.◌∷◌ (digit (n % 10)) rest else more

-- `strconv.Itoa`
unfoldable pub itoa : ℕ → String
unfolding decimal
itoa n = decimal (suc n) n ""

code-digit : (d : ℕ) → d < 10 → code (digit d) ≡ 48 + d
unfolding digit
code-digit zero h = refl
code-digit (suc zero) h = refl
code-digit (suc (suc zero)) h = refl
code-digit (suc (suc (suc zero))) h = refl
code-digit (suc (suc (suc (suc zero)))) h = refl
code-digit (suc (suc (suc (suc (suc zero))))) h = refl
code-digit (suc (suc (suc (suc (suc (suc zero)))))) h = refl
code-digit (suc (suc (suc (suc (suc (suc (suc zero))))))) h = refl
code-digit (suc (suc (suc (suc (suc (suc (suc (suc zero)))))))) h = refl
code-digit (suc (suc (suc (suc (suc (suc (suc (suc (suc zero))))))))) h = refl
code-digit (suc (suc (suc (suc (suc (suc (suc (suc (suc (suc d)))))))))) h = absurd (omega arith)

digits_step :
    (m d c : ℕ) (r : Option ℕ)
    → c ≡ 48 + d
    → d < 10
    → (if ((if leb 48 c then leb c 57 else false)) then r else none) ≡ r
digits_step m d c r e h = ground arith

digits-cons :
    (m d : ℕ) (rest : String)
    → d < 10
    → digits m (String.◌∷◌ (digit d) rest) ≡ digits (m * 10 + d) rest
unfolding digits
digits-cons m d rest h =
    let n : m * 10 + (code (digit d) - 48) ≡ m * 10 + d = omega (arith, code-digit d h) in
    ground (arith, code-digit d h, ap (λ k. digits k rest) n)

digits-decimal : (f n : ℕ) (rest : String) → n < f → digits 0 (decimal f n rest) ≡ digits n rest
unfolding decimal
digits-decimal zero n rest h = absurd (omega arith)
digits-decimal (suc f) n rest h = elim (Bool-cases (ltb n 10)) [
  | inl small ↦ rw small (
      digits-cons 0 (n % 10) rest (omega arith)
      ∙ ap (λ k. digits k rest) (let l : n < 10 = ltb→lt n 10 small in omega arith))
  | inr large ↦ rw large (
      digits-decimal f (n / 10) (String.◌∷◌ (digit (n % 10)) rest)
        (let l : 10 ≤ n = ground (arith, large) in omega arith)
      ∙ digits-cons (n / 10) (n % 10) rest (omega arith)
      ∙ ap (λ k. digits k rest) (omega arith))
]

unsigned-decimal :
    (f n : ℕ) (c : Char) (rest : String)
    → unsigned (decimal f n (String.◌∷◌ c rest)) ≡ digits 0 (decimal f n (String.◌∷◌ c rest))
unfolding decimal unsigned
unsigned-decimal zero n c rest = refl
unsigned-decimal (suc f) n c rest = elim (Bool-cases (ltb n 10)) [
  | inl small ↦ rw small refl
  | inr large ↦ rw large (unsigned-decimal f (n / 10) (digit (n % 10)) (String.◌∷◌ c rest))
]

unsigned-decimal-suc : (f n : ℕ) → unsigned (decimal (suc f) n "") ≡ digits 0 (decimal (suc f) n "")
unfolding decimal unsigned
unsigned-decimal-suc f n = elim (Bool-cases (ltb n 10)) [
  | inl small ↦ rw small refl
  | inr large ↦ rw large (unsigned-decimal f (n / 10) (digit (n % 10)) "")
]

digits-empty : (n : ℕ) → digits n "" ≡ some n
unfolding digits
digits-empty n = refl

-- What `strconv.Itoa` writes is read back as the number.
pub unsigned-itoa : (n : ℕ) → unsigned (itoa n) ≡ some n
unfolding itoa
unsigned-itoa n =
    unsigned-decimal-suc n n ∙ digits-decimal (suc n) n "" (omega arith) ∙ digits-empty n

unsigned-nonblank : (s : String) (n : ℕ) → unsigned s ≡ some n → is_blank s ≡ false
unfolding unsigned digits is_blank is_space
unsigned-nonblank String.[] n h = absurd (ground arith)
unsigned-nonblank (String.◌∷◌ c s) n h = ground arith

pub is_blank-itoa : (n : ℕ) → is_blank (itoa n) ≡ false
is_blank-itoa n = unsigned-nonblank (itoa n) n (unsigned-itoa n)

some_injective : (a b : ℕ) → ◌≡◌ {A = Option ℕ} (some a) (some b) → a ≡ b
some_injective a b h = cc

pub itoa_injective : (m n : ℕ) → itoa m ≡ itoa n → m ≡ n
itoa_injective m n h = some_injective m n (sym (unsigned-itoa m) ∙ ap unsigned h ∙ unsigned-itoa n)
