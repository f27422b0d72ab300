-- ===== src/Resolve/Slices.antt =====
-- `StringSliceOption` and `Float64SliceOption` of resolve.go.
use aigo.Base.{String, Option, none, some, List, [], ◌∷◌, str_eq, if◌then◌else◌}
use aigo.Base.Int.{Float64, of_int}
use aigo.Workflow.{Value, Values, Graph, Floats, input}
use aigo.Resolve.{search_nodes}

-- The texts of a `[]any` that are not empty.
texts_of : Values → List String
texts_of Values.nil = []
texts_of (Values.cons (Value.str s) vs) =
    let rest = texts_of vs in if str_eq s "" then rest else s ∷ rest
texts_of (Values.cons v vs) = texts_of vs

-- A slice counts if it is not empty.
unless_empty {ℓ} : {A : Type ℓ} → List A → Option (List A)
unless_empty [] = none
unless_empty (x ∷ xs) = some (x ∷ xs)

pub texts_in : Option Value → Option (List String)
unfolding texts_of unless_empty
texts_in (some (Value.strs ss)) = unless_empty ss
texts_in (some (Value.list vs)) = unless_empty (texts_of vs)
texts_in _ = none

-- `StringSliceOption`
unfoldable pub string_slice_option : Graph → List String → Option (List String)
unfolding search_nodes texts_in
string_slice_option g keys = search_nodes g (λ n k. texts_in (input n k)) keys

-- The `switch` of `Float64SliceOption` on one item.
number_of : Floats → Value → Option Float64
number_of floating (Value.float f) = some f
number_of floating (Value.int i) = some (of_int i)
number_of floating (Value.number s) = floating.parse s
number_of floating _ = none

and_rest : Option Float64 → List Float64 → List Float64
and_rest none rest = rest
and_rest (some f) rest = f ∷ rest

numbers_of : Floats → Values → List Float64
unfolding number_of and_rest
numbers_of floating Values.nil = []
numbers_of floating (Values.cons v vs) = and_rest (number_of floating v) (numbers_of floating vs)

pub numbers_in : Floats → Option Value → Option (List Float64)
unfolding numbers_of unless_empty
numbers_in floating (some (Value.list vs)) = unless_empty (numbers_of floating vs)
numbers_in floating _ = none

-- `Float64SliceOption`
unfoldable pub float64_slice_option : Floats → Graph → List String → Option (List Float64)
unfolding search_nodes numbers_in
float64_slice_option floating g keys = search_nodes g (λ n k. numbers_in floating (input n k)) keys
