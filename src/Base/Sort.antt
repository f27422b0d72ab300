-- ===== src/Base/Sort.antt =====
-- `sort.Strings` and `sort.Slice`, as insertion sort by a Boolean order.
use Prim.Native.String.{String}
use mathlib.Core.Path.{◌≡◌, refl, sym, ap₂, ◌∙◌}
use mathlib.Core.Logic.{◌⊎◌, inl, inr, ∥∥₁_elim}
use mathlib.Core.Bool.{Bool, true, false≢true, ◌||◌}
use mathlib.Core.List.{List, [], ◌∷◌, Perm, Permᴰ}
use mathlib.Core.List.Perm
use mathlib.Core.HLevel.{hedberg}
use text.Mathlib.TextEquality.{eq_iff}
use native.Mathlib.Omega.{arith}
use aigo.Base.Tests.{str_eq, if◌then◌else◌, Bool-cases}
use aigo.Base.Lists.{All, some_of}
use aigo.Base.Text.{str_leb, str_leb-total, str_leb_trans, str_leb_antisymm}

module _ {ℓ} {A : Type ℓ} (le : A → A → Bool) where
  unfoldable pub insert : A → List A → List A
  insert a [] = a ∷ []
  insert a (b ∷ xs) = if le a b then a ∷ b ∷ xs else b ∷ insert a xs

  unfoldable pub sort : List A → List A
  unfolding insert
  sort [] = []
  sort (a ∷ xs) = insert a (sort xs)

  -- Each element is below all that follow.
  abbrev pub IsSorted : List A → Type 0
  IsSorted [] = Unit
  IsSorted (a ∷ xs) = All (λ b. le a b ≡ true) xs × IsSorted xs

  insert-perm : (a : A) (xs : List A) → Perm (insert a xs) (a ∷ xs)
  unfolding insert
  insert-perm a [] = Perm.refl _
  insert-perm a (b ∷ xs) = ground (
    arith,
    Perm.refl (a ∷ b ∷ xs),
    Perm.trans (Perm.cons b (insert-perm a xs)) (Perm.swap a b xs),
  )

  pub sort-perm : (xs : List A) → Perm (sort xs) xs
  unfolding sort
  sort-perm [] = Perm.refl _
  sort-perm (a ∷ xs) = Perm.trans (insert-perm a (sort xs)) (Perm.cons a (sort-perm xs))

  pub All-insert {κ} : (P : A → Type κ) (a : A) (xs : List A) → P a → All P xs → All P (insert a xs)
  unfolding insert
  All-insert P a [] h k = (h, k)
  All-insert P a (b ∷ xs) h k = elim (Bool-cases (le a b)) [
    | inl e ↦ rw e (h, k)
    | inr e ↦ rw e (k.0, All-insert P a xs h k.1)
  ]

  some_of-insert :
      (p : A → Bool) (a : A) (xs : List A) → some_of p (insert a xs) ≡ (p a || some_of p xs)
  unfolding insert
  some_of-insert p a [] = refl
  some_of-insert p a (b ∷ xs) = ground (arith, some_of-insert p a xs)

  pub some_of-sort : (p : A → Bool) (xs : List A) → some_of p (sort xs) ≡ some_of p xs
  unfolding sort
  some_of-sort p [] = refl
  some_of-sort p (a ∷ xs) = ground (arith, some_of-insert p a (sort xs), some_of-sort p xs)

  pub All-sort {κ} : (P : A → Type κ) (xs : List A) → All P xs → All P (sort xs)
  unfolding sort
  All-sort P [] h = tt
  All-sort P (a ∷ xs) h = All-insert P a (sort xs) h.0 (All-sort P xs h.1)

pub All-imp {ℓ κ μ} :
    {A : Type ℓ} {P : A → Type κ} {Q : A → Type μ} (f : (a : A) → P a → Q a) (xs : List A)
    → All P xs
    → All Q xs
All-imp f [] h = tt
All-imp f (x ∷ xs) h = (f x h.0, All-imp f xs h.1)

module _ {ℓ} {A : Type ℓ} (le : A → A → Bool)
    (total : (a b : A) → (le a b ≡ true) ⊎ (le b a ≡ true))
    (trans : (a b c : A) → le a b ≡ true → le b c ≡ true → le a c ≡ true) where
  insert-IsSorted : (a : A) (xs : List A) → IsSorted le xs → IsSorted le (insert le a xs)
  unfolding insert
  insert-IsSorted a [] h = (tt, tt)
  insert-IsSorted a (b ∷ xs) h = elim (Bool-cases (le a b)) [
    | inl e ↦ rw e ((e, All-imp (λ c below. trans a b c e below) xs h.0), h)
    | inr e ↦ rw e (
      All-insert le (λ c. le b c ≡ true) a xs (ground (arith, total a b)) h.0,
      insert-IsSorted a xs h.1,
    )
  ]

  pub sort-IsSorted : (xs : List A) → IsSorted le (sort le xs)
  unfolding sort
  sort-IsSorted [] = tt
  sort-IsSorted (a ∷ xs) = insert-IsSorted a (sort le xs) (sort-IsSorted xs)

  module _ (antisymm : (a b : A) → le a b ≡ true → le b a ≡ true → a ≡ b) where
    insert_comm :
        (a b : A) (xs : List A) → insert le a (insert le b xs) ≡ insert le b (insert le a xs)
    unfolding insert
    insert_comm a b [] = ground (arith, total a b, antisymm a b)
    insert_comm a b (c ∷ xs) =
        ground (arith, total a b, antisymm a b, trans a b c, trans b a c, insert_comm a b xs)

    sort_of_permᴰ : {xs ys : List A} → Permᴰ xs ys → sort le xs ≡ sort le ys
    unfolding sort
    sort_of_permᴰ Permᴰ.nil = refl
    sort_of_permᴰ (Permᴰ.cons e p) = ap₂ (insert le) e (sort_of_permᴰ p)
    sort_of_permᴰ (Permᴰ.swap {a = a} {b = b} {l = l} e f) =
        insert_comm a b (sort le l) ∙ ap₂ (λ x y. insert le x (insert le y (sort le l))) f e
    sort_of_permᴰ (Permᴰ.trans p q) = sort_of_permᴰ p ∙ sort_of_permᴰ q

    -- The sorted list depends on the elements, not on their order.
    pub sort_of_perm : IsSet (List A) → (xs ys : List A) → Perm xs ys → sort le xs ≡ sort le ys
    sort_of_perm set xs ys p = ∥∥₁_elim p (set _ _) sort_of_permᴰ

String-discrete : Discrete String
String-discrete s t = elim (Bool-cases (str_eq s t)) [
  | inl e ↦ yes ((eq_iff s t).0 e)
  | inr e ↦ no (λ p. false≢true (sym e ∙ (eq_iff s t).1 p))
]

Strings-set : IsSet (List String)
Strings-set = hlevel (hedberg String-discrete)

-- `sort.Strings`
abbrev pub sort_strings : List String → List String
sort_strings = sort str_leb

pub sort_strings-IsSorted : (xs : List String) → IsSorted str_leb (sort_strings xs)
sort_strings-IsSorted = sort-IsSorted str_leb str_leb-total str_leb_trans

pub sort_strings_of_perm : (xs ys : List String) → Perm xs ys → sort_strings xs ≡ sort_strings ys
sort_strings_of_perm = sort_of_perm str_leb str_leb-total str_leb_trans str_leb_antisymm Strings-set
