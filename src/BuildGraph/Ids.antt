-- ===== src/BuildGraph/Ids.antt =====
-- The ids that `nodeID` gives, and what a node under a new id leaves of the graph.
use text.Mathlib.TextEquality.{eq_iff}
use aigo.Base.{
  ℕ, zero, suc, ◌<◌, String, ◌≡◌, refl, sym, ap, ◌∙◌, false, Option, none, some, List, [], ◌∷◌,
  ◌++◌, length, length-append, str_eq, arith, Bool-cases, inl, inr,
}
use aigo.Base.Assoc.{get, has, put, keys, get-put}
use aigo.Base.Decimal.{itoa, itoa_injective}
use aigo.Base.Text.{is_blank}
use aigo.Workflow.{Node, Graph}
use aigo.Workflow.Validity.{IsNamed}

abbrev pub prompt_class : String
prompt_class = "CLIPTextEncode"

-- "1", "2", …, the decimal text of `n`
unfoldable pub numbers : ℕ → List String
numbers zero = []
numbers (suc n) = numbers n ++ itoa (suc n) ∷ []

pub keys-put_new :
    (g : Graph) (k : String) (v : Node) → has g k ≡ false → keys (put g k v) ≡ keys g ++ k ∷ []
unfolding has put
keys-put_new [] k v h = refl
keys-put_new ((j, n) ∷ g) k v h = ground (arith, keys-put_new g k v)

pub put-IsNamed :
    (g : Graph) (k : String) (v : Node)
    → IsNamed g
    → is_blank k ≡ false
    → is_blank v.class_type ≡ false
    → IsNamed (put g k v)
unfolding put
put-IsNamed [] k v h a b = ((a, b), tt)
put-IsNamed ((j, n) ∷ g) k v h a b = elim (Bool-cases (str_eq j k)) [
  | inl e ↦ rw e ((a, b), h.1)
  | inr e ↦ rw e (h.0, put-IsNamed g k v h.1 a b)
]

-- A class type that a section may give its node.
pub record IsOther (class_type : String) : Type 0 where
  pub readable : is_blank class_type ≡ false
  pub other : str_eq class_type prompt_class ≡ false

pub itoa-ne : (a b : ℕ) → a < b → str_eq (itoa a) (itoa b) ≡ false
itoa-ne a b l = elim (Bool-cases (str_eq (itoa a) (itoa b))) [
  | inl e ↦ absurd (omega (arith, itoa_injective a b ((eq_iff (itoa a) (itoa b)).0 e)))
  | inr e ↦ e
]

pub itoa-one : itoa 1 ≡ "1"
unfolding itoa
itoa-one = refl

pub one-ne-itoa : (n : ℕ) → 1 < n → str_eq (itoa n) "1" ≡ false
one-ne-itoa n l = elim (Bool-cases (str_eq (itoa n) "1")) [
  | inl e ↦ absurd (omega (arith, itoa_injective n 1 ((eq_iff (itoa n) "1").0 e ∙ sym itoa-one)))
  | inr e ↦ e
]

class_type-some :
    (v n : Node) → ◌≡◌ {A = Option Node} (some v) (some n) → v.class_type ≡ n.class_type
class_type-some v n h = ap (λ (o : Option Node). elim o [ none ↦ "" | some m ↦ m.class_type ]) h

pub itoa-ne-one : (m : ℕ) → 1 < m → str_eq "1" (itoa m) ≡ false
itoa-ne-one m l = elim (Bool-cases (str_eq "1" (itoa m))) [
  | inl e ↦ absurd (omega (arith, itoa_injective 1 m (itoa-one ∙ (eq_iff "1" (itoa m)).0 e)))
  | inr e ↦ e
]

-- Another class type than the prompt's cannot be reached by a put of such a node.
pub only-put :
    (g : Graph) (k : String) (v : Node)
    → str_eq v.class_type prompt_class ≡ false
    → ((id : String) (n : Node) → get g id ≡ some n → n.class_type ≡ prompt_class → id ≡ "1")
    → (id : String) (n : Node) → get (put g k v) id ≡ some n
    → n.class_type ≡ prompt_class
    → id ≡ "1"
only-put g k v other only id n f c = elim (Bool-cases (str_eq k id)) [
  | inl e ↦
      let same : ◌≡◌ {A = Option Node} (some v) (some n) = sym (get-put g k id v ∙ rw e refl) ∙ f in
      absurd
        (ground (arith, other, (eq_iff v.class_type prompt_class).1 (class_type-some v n same ∙ c)))
  | inr e ↦ only id n (sym (get-put g k id v ∙ rw e refl) ∙ f) c
]

pub length-numbers : (n : ℕ) → length (numbers n) ≡ n
unfolding numbers
length-numbers zero = refl
length-numbers (suc n) =
    omega (arith, length-append (numbers n) (itoa (suc n) ∷ []), length-numbers n)
