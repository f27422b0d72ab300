-- ===== src/Ratio/Laws.antt =====
-- workflow/resolve/size.go: what `gcd` and `simplifyRatio` compute.
use Prim.Native.Nat.{◌∣◌}
use native.Mathlib.Decide.{dec_lt}
use native.Mathlib.Nat.{
  dvd_refl, dvd-zero, dvd-mod_iff, mul-div_cancel', mul-dvd-mul_left, dvd_of_mul-dvd-mul_left,
  eq-one_of_dvd-one, pos_of_dvd_of_pos,
}
use mathlib.Core.WellFounded.{Acc}
use mathlib.Core.Logic.{dite}
use aigo.Base.{
  ℕ, zero, suc, ◌*◌, ◌%◌, ◌<◌, ◌≤◌, ◌≡◌, ◌↔◌, subst, arith, List, [], ◌∷◌, All, Bool-cases, inl,
  inr, leb, ◌&&◌, ◌^◌,
}
use aigo.Ratio.{gcd, gcd_loop, reduced, lt_wf, first_near, near, ratio, well_known}

dvd-mod-swap : (k a b : ℕ) → ((k ∣ b) × (k ∣ a % b)) ↔ ((k ∣ a) × (k ∣ b))
dvd-mod-swap k a b = (λ p. ((dvd-mod_iff k p.0).0 p.1, p.0), λ p. (p.1, (dvd-mod_iff k p.1).1 p.0))

dite-all :
    {Q : Type 0} {A : Type 0} (P : A → Type 0) (d : Dec Q) (f : Q → A) (g : ¬ Q → A)
    → ((q : Q) → P (f q))
    → ((q : ¬ Q) → P (g q))
    → P (dite d f g)
dite-all P (yes q) f g left right = left q
dite-all P (no q) f g left right = right q

gcd_loop-dvd : (k a b : ℕ) (w : Acc ◌<◌ b) → (k ∣ gcd_loop a b w) ↔ ((k ∣ a) × (k ∣ b))
unfolding gcd_loop
gcd_loop-dvd k a b (Acc.intro _ smaller) =
    dite-all (λ x. (k ∣ x) ↔ ((k ∣ a) × (k ∣ b))) (dec_lt 0 b) _ _
      (λ h. swapped (gcd_loop-dvd k b (a % b) (smaller (a % b) _)))
      (λ h. (λ p. (p, subst (λ x. k ∣ x) (omega arith) (dvd-zero k)), λ p. p.0))
  where
    swapped : {X : Type 0} → X ↔ ((k ∣ b) × (k ∣ a % b)) → X ↔ ((k ∣ a) × (k ∣ b))
    swapped below =
        (λ p. (dvd-mod-swap k a b).0 (below.0 p), λ p. below.1 ((dvd-mod-swap k a b).1 p))

-- A number divides `gcd a b` exactly when it divides both: `gcd` is the greatest common divisor.
pub gcd-dvd : (k a b : ℕ) → (k ∣ gcd a b) ↔ ((k ∣ a) × (k ∣ b))
unfolding gcd
gcd-dvd k a b = gcd_loop-dvd k a b (lt_wf.apply b)

gcd_divides : (a b : ℕ) → (gcd a b ∣ a) × (gcd a b ∣ b)
gcd_divides a b = (gcd-dvd (gcd a b) a b).0 (dvd_refl (gcd a b))

gcd_pos : (a b : ℕ) → 0 < a → 0 < gcd a b
gcd_pos a b h = pos_of_dvd_of_pos (gcd_divides a b).0 h

-- The reduced numbers times the divisor are the numbers.
reduced-times : (w h : ℕ) → (gcd w h * (reduced w h).0 ≡ w) × (gcd w h * (reduced w h).1 ≡ h)
unfolding reduced
reduced-times w h =
    (mul-div_cancel' (gcd w h) (gcd_divides w h).0, mul-div_cancel' (gcd w h) (gcd_divides w h).1)

times_dvd : (d k p w : ℕ) → d * p ≡ w → k ∣ p → d * k ∣ w
times_dvd d k p w e h = subst (λ x. d * k ∣ x) e (mul-dvd-mul_left k d h)

reduced-coprime : (w h k : ℕ) → 0 < w → k ∣ (reduced w h).0 → k ∣ (reduced w h).1 → k ≡ 1
reduced-coprime w h k positive left right =
    let both : (gcd w h * k ∣ w) × (gcd w h * k ∣ h) = (
      times_dvd (gcd w h) k _ w (reduced-times w h).0 left,
      times_dvd (gcd w h) k _ h (reduced-times w h).1 right,
    ) in
    eq-one_of_dvd-one (
      dvd_of_mul-dvd-mul_left {k = gcd w h} k (gcd_pos w h positive)
        (subst (λ x. gcd w h * k ∣ x) (omega arith) ((gcd-dvd (gcd w h * k) w h).1 both)))

-- The reduced numbers of two positive numbers are positive, have their ratio, and have no common
-- divisor but 1.
pub reduced_lem :
    (w h : ℕ)
    → 0 < w
    → 0 < h
    → ((reduced w h).0 * h ≡ w * (reduced w h).1)
      × ((k : ℕ) → k ∣ (reduced w h).0 → k ∣ (reduced w h).1 → k ≡ 1)
      × (0 < (reduced w h).0)
      × (0 < (reduced w h).1)
reduced_lem w h p q = (
  same_ratio _ _ (gcd w h) w h (reduced-times w h).0 (reduced-times w h).1,
  λ k. reduced-coprime w h k p,
  factor_pos (gcd w h) _ w p (reduced-times w h).0,
  factor_pos (gcd w h) _ h q (reduced-times w h).1,
)
  where
    same_ratio : (a b d w h : ℕ) → d * a ≡ w → d * b ≡ h → a * h ≡ w * b
    same_ratio a b d w h e f = rw (← e, ← f) (omega arith)

    factor_pos : (d a w : ℕ) → 0 < w → d * a ≡ w → 0 < a
    factor_pos d zero w h e = absurd (omega arith)
    factor_pos d (suc a) w h e = omega arith

-- A positive `int`.
abbrev pub IsPositiveInt : ℕ → Type 0
IsPositiveInt n = (0 < n) × (n < 2 ^ 63)

abbrev pub BothPositive : ℕ × ℕ → Type 0
BothPositive (a, b) = IsPositiveInt a × IsPositiveInt b

first_near-BothPositive :
    (w h : ℕ) (rs : List (ℕ × ℕ)) (other : ℕ × ℕ)
    → All BothPositive rs
    → BothPositive other
    → BothPositive (first_near w h rs other)
unfolding first_near
first_near-BothPositive w h [] other hs k = k
first_near-BothPositive w h (r ∷ rs) other hs k = elim (Bool-cases (near w h r)) [
  | inl e ↦ rw e hs.0
  | inr e ↦ rw e (first_near-BothPositive w h rs other hs.1 k)
]

factor_le : (d a w : ℕ) → 0 < d → d * a ≡ w → a ≤ w
factor_le zero a w h e = absurd (omega arith)
factor_le (suc d) a w h e = omega arith

reduced-BothPositive : (w h : ℕ) → IsPositiveInt w → IsPositiveInt h → BothPositive (reduced w h)
reduced-BothPositive w h p q = (
  (
    (reduced_lem w h p.0 q.0).2,
    omega (arith, factor_le (gcd w h) _ w (gcd_pos w h p.0) (reduced-times w h).0),
  ),
  (
    (reduced_lem w h p.0 q.0).3,
    omega (arith, factor_le (gcd w h) _ h (gcd_pos w h p.0) (reduced-times w h).1),
  ),
)

-- The two numbers that `simplifyRatio` writes for two positive `int`s are positive `int`s.
pub ratio-BothPositive : (w h : ℕ) → IsPositiveInt w → IsPositiveInt h → BothPositive (ratio w h)
unfolding ratio
ratio-BothPositive w h p q = elim (Bool-cases (leb (reduced w h).0 32 && leb (reduced w h).1 32)) [
  | inl e ↦ rw e (reduced-BothPositive w h p q)
  | inr e ↦
      rw e (first_near-BothPositive w h well_known _ (ground arith) (reduced-BothPositive w h p q))
]
