-- ===== src/Base/Assoc.antt =====
-- Go maps with text keys, as association lists. A missing key reads as `none`.
use Prim.Native.String.{String}
use mathlib.Core.Path.{◌≡◌, refl}
use mathlib.Core.Bool.{Bool, true, false}
use mathlib.Core.List.{List, [], ◌∷◌}
use mathlib.Core.Option.{Option, none, some}
use native.Mathlib.Omega.{arith}
use text.Mathlib.TextEquality.{eq_iff}
use text.Mathlib.TextPositions.{eq_refl}
use aigo.Base.Tests.{str_eq, if◌then◌else◌}
use aigo.Base.Lists.{some_of}

abbrev pub Map {ℓ} : Type ℓ → Type ℓ
Map V = List (String × V)

module _ {ℓ} {V : Type ℓ} where
  -- `m[k]`
  unfoldable pub get : Map V → String → Option V
  get [] k = none
  get ((j, v) ∷ m) k = if str_eq j k then some v else get m k

  -- `_, ok := m[k]`
  unfoldable pub has : Map V → String → Bool
  has [] k = false
  has ((j, v) ∷ m) k = if str_eq j k then true else has m k

  -- `m[k] = v`
  unfoldable pub put : Map V → String → V → Map V
  put [] k v = (k, v) ∷ []
  put ((j, w) ∷ m) k v = if str_eq j k then (k, v) ∷ m else (j, w) ∷ put m k v

  -- `delete(m, k)`
  unfoldable pub delete : Map V → String → Map V
  delete [] k = []
  delete ((j, v) ∷ m) k = let rest = delete m k in if str_eq j k then rest else (j, v) ∷ rest

  abbrev pub keys : Map V → List String
  keys [] = []
  keys ((j, v) ∷ m) = j ∷ keys m

  pub get-put :
      (m : Map V) (k j : String) (v : V)
      → get (put m k v) j ≡ (if str_eq k j then some v else get m j)
  unfolding get put
  get-put [] k j v = refl
  get-put ((i, w) ∷ m) k j v = ground (arith, eq_iff k j, eq_iff i k, eq_iff i j, get-put m k j v)

  pub get-delete :
      (m : Map V) (k j : String) → get (delete m k) j ≡ (if str_eq k j then none else get m j)
  unfolding get delete
  get-delete [] k j = ground arith
  get-delete ((i, w) ∷ m) k j = ground (arith, eq_iff k j, eq_iff i k, eq_iff i j, get-delete m k j)

  pub has-put :
      (m : Map V) (k j : String) (v : V)
      → has (put m k v) j ≡ (if str_eq k j then true else has m j)
  unfolding has put
  has-put [] k j v = refl
  has-put ((i, w) ∷ m) k j v = ground (arith, eq_iff k j, eq_iff i k, eq_iff i j, has-put m k j v)

  pub has-delete :
      (m : Map V) (k j : String) → has (delete m k) j ≡ (if str_eq k j then false else has m j)
  unfolding has delete
  has-delete [] k j = ground arith
  has-delete ((i, w) ∷ m) k j = ground (arith, eq_iff k j, eq_iff i k, eq_iff i j, has-delete m k j)

  pub has-eq-get :
      (m : Map V) (k : String) → has m k ≡ (elim (get m k) [ none ↦ false | some _ ↦ true ])
  unfolding get has
  has-eq-get [] k = refl
  has-eq-get ((i, w) ∷ m) k = ground (arith, has-eq-get m k)

-- No key twice.
abbrev pub IsMap {ℓ} : {V : Type ℓ} → Map V → Type 0
IsMap [] = Unit
IsMap ((j, v) ∷ m) = (has m j ≡ false) × IsMap m

module _ {ℓ} {V : Type ℓ} where
  pub put-IsMap : (m : Map V) (k : String) (v : V) → IsMap m → IsMap (put m k v)
  unfolding put has
  put-IsMap [] k v h = (refl, tt)
  put-IsMap ((i, w) ∷ m) k v h =
      ground (arith, put-IsMap m k v h.1, has-put m k i v, eq_iff i k, eq_iff k i)

  pub delete-IsMap : (m : Map V) (k : String) → IsMap m → IsMap (delete m k)
  unfolding delete
  delete-IsMap [] k h = tt
  delete-IsMap ((i, w) ∷ m) k h = ground (arith, delete-IsMap m k h.1, has-delete m k i)

  pub some_of-keys : (m : Map V) (k : String) → some_of (λ j. str_eq j k) (keys m) ≡ has m k
  unfolding has
  some_of-keys [] k = refl
  some_of-keys ((j, v) ∷ m) k = ground (arith, some_of-keys m k)

pub str_eq_refl : (s : String) → str_eq s s ≡ true
str_eq_refl s = eq_refl s
