-- ===== src/Size/Snap/Supported.antt =====
-- workflow/resolve/size.go: the normalised image size is one of the supported sizes.
use aigo.Base.{
  ℕ, zero, suc, String, Bool, true, false, ◌≡◌, sym, ap, refl, List, [], ◌∷◌, map, str_eq,
  if◌then◌else◌, Bool-cases, inl, inr, arith, All, some_of, subst,
}
use aigo.Base.Assoc.{str_eq_refl}
use aigo.Base.Decimal.{itoa}
use aigo.Base.Int.{ℤ, pos}
use aigo.Base.Scan.{is_number-itoa}
use aigo.Ratio.Laws.{BothPositive}
use aigo.Size.{SizeSpec, is_zero, parse_dimensions, to_wxh}
use aigo.Size.Laws.{parse_size-printed, nonempty-number}
use aigo.Size.Snap.{
  Angles, candidates_of, is_nearer, nearest, among, snap_to, normalize_image_size, size_or_default,
}

-- `fmt.Sprintf("%dx%d", w, h)`
abbrev pub wxh : ℕ × ℕ → String
wxh (w, h) = to_wxh (parse_dimensions (pos w) (pos h))

abbrev spec_of : ℕ × ℕ → SizeSpec
spec_of (w, h) = parse_dimensions (pos w) (pos h)

is_zero-spec_of : (p : ℕ × ℕ) → BothPositive p → is_zero (spec_of p) ≡ false
unfolding is_zero parse_dimensions
is_zero-spec_of (zero, h) q = absurd (omega (arith, q.0.0))
is_zero-spec_of (suc w, zero) q = absurd (omega (arith, q.1.0))
is_zero-spec_of (suc w, suc h) q = refl

-- The candidates of printed sizes are the sizes.
candidates_of-wxh :
    (ps : List (ℕ × ℕ)) → All BothPositive ps → candidates_of (map wxh ps) ≡ map spec_of ps
unfolding candidates_of
candidates_of-wxh [] h = refl
candidates_of-wxh ((w, v) ∷ ps) h =
    rw ((parse_size-printed w v h.0.0 h.0.1).0, is_zero-spec_of (w, v) h.0)
      (ap (λ cs. spec_of (w, v) ∷ cs) (candidates_of-wxh ps h.1))

module _ (angles : Angles) where
  -- What all candidates have, the result has.
  nearest-All :
      (P : SizeSpec → Type 0) (s best : SizeSpec) (cs : List SizeSpec)
      → P best
      → All P cs
      → P (nearest angles s best cs)
  unfolding nearest
  nearest-All P s best [] p q = p
  nearest-All P s best (c ∷ cs) p q = elim (Bool-cases (is_nearer angles s c best)) [
    | inl e ↦ rw e (nearest-All P s c cs q.0 q.1)
    | inr e ↦ rw e (nearest-All P s best cs p q.1)
  ]

abbrev Listed : List String → SizeSpec → Type 0
Listed texts c = (some_of (str_eq (to_wxh c)) texts ≡ true) × (str_eq (to_wxh c) "" ≡ false)

nonempty-wxh : (p : ℕ × ℕ) → BothPositive p → str_eq (wxh p) "" ≡ false
unfolding parse_dimensions to_wxh
nonempty-wxh (zero, h) q = absurd (omega (arith, q.0.0))
nonempty-wxh (suc w, zero) q = absurd (omega (arith, q.1.0))
nonempty-wxh (suc w, suc h) q = nonempty-number (itoa (suc w)) _ (is_number-itoa (suc w))

All-Listed :
    (texts : List String) (ps : List (ℕ × ℕ))
    → All BothPositive ps
    → ((t : String) → some_of (str_eq t) (map wxh ps) ≡ true → some_of (str_eq t) texts ≡ true)
    → All (Listed texts) (map spec_of ps)
All-Listed texts [] h sub = tt
All-Listed texts (p ∷ ps) h sub = (
  (sub (wxh p) (ground (arith, str_eq_refl (wxh p))), nonempty-wxh p h.0),
  All-Listed texts ps h.1 (λ t e. sub t (ground (arith, e))),
)

among-Listed :
    (angles : Angles) (texts : List String) (s : SizeSpec) (p : ℕ × ℕ) (ps : List (ℕ × ℕ))
    → All (Listed texts) (map spec_of (p ∷ ps))
    → Listed texts (among angles s (map spec_of (p ∷ ps)))
unfolding among
among-Listed angles texts s p ps h =
    nearest-All angles (Listed texts) s (spec_of p) (map spec_of ps) h.0 h.1

snap_to-wxh :
    (angles : Angles) (s : SizeSpec) (ps : List (ℕ × ℕ))
    → is_zero s ≡ false
    → All BothPositive ps
    → snap_to angles s (map wxh ps) ≡ among angles s (map spec_of ps)
unfolding snap_to
snap_to-wxh angles s ps some_size h = rw some_size (ap (among angles s) (candidates_of-wxh ps h))

snap_to-Listed :
    (angles : Angles) (s : SizeSpec) (p : ℕ × ℕ) (ps : List (ℕ × ℕ))
    → is_zero s ≡ false
    → All BothPositive (p ∷ ps)
    → Listed (map wxh (p ∷ ps)) (snap_to angles s (map wxh (p ∷ ps)))
snap_to-Listed angles s p ps some_size h =
    subst (Listed (map wxh (p ∷ ps))) (sym (snap_to-wxh angles s (p ∷ ps) some_size h)) (
      among-Listed angles (map wxh (p ∷ ps)) s p ps
        (All-Listed (map wxh (p ∷ ps)) (p ∷ ps) h (λ t e. e)))

normalize_some :
    (angles : Angles) (texts : List String) (w h : ℤ)
    → is_zero (parse_dimensions w h) ≡ false
    → str_eq (to_wxh (snap_to angles (parse_dimensions w h) texts)) "" ≡ false
    → normalize_image_size angles texts w h ≡ to_wxh (snap_to angles (parse_dimensions w h) texts)
unfolding normalize_image_size size_or_default
normalize_some angles texts w h e f =
    go (is_zero (parse_dimensions w h)) _ (snap_to angles (parse_dimensions w h) texts) e f
  where
    go :
        (b : Bool) (first : String) (s : SizeSpec)
        → b ≡ false
        → str_eq (to_wxh s) "" ≡ false
        → (if b then first else size_or_default angles (to_wxh s)) ≡ to_wxh s
    go b first s e f = rw (e, f) refl

-- If the supported sizes are positive and written as "WxH", `NormalizeImageSize` gives one of them for
-- every width and height, those that are not positive included.
pub normalize_image_size-supported :
    (angles : Angles) (p : ℕ × ℕ) (ps : List (ℕ × ℕ)) (w h : ℤ)
    → All BothPositive (p ∷ ps)
    → some_of (str_eq (normalize_image_size angles (map wxh (p ∷ ps)) w h)) (map wxh (p ∷ ps))
      ≡ true
normalize_image_size-supported angles p ps w h all =
    elim (Bool-cases (is_zero (parse_dimensions w h))) [
      | inl e ↦ unfold normalize_image_size in ground (arith, e, str_eq_refl (wxh p))
      | inr e ↦
          let found = snap_to-Listed angles (parse_dimensions w h) p ps e all in
          subst (λ t. some_of (str_eq t) (map wxh (p ∷ ps)) ≡ true)
            (sym (normalize_some angles (map wxh (p ∷ ps)) w h e found.1)) found.0
    ]
