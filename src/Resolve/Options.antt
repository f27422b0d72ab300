-- ===== src/Resolve/Options.antt =====
-- Options are read from the nodes in the order of their ids, the same for every order of the map.
use aigo.Base.{String, ◌≡◌, ap, ◌∙◌, Option, some, List, first_some, arith, fun_ext}
use aigo.Base.Int.{Float64, of_int}
use aigo.Workflow.{
  Value, Node, Graph, Floats, sorted_node_ids, node_at, input, string_input, int_input, as_int,
  int_of_float, int_of,
}
use aigo.Workflow.Order.{SameGraph, sorted_node_ids-SameGraph, node_at-SameGraph}
use aigo.Resolve.Slices.{string_slice_option, float64_slice_option, texts_in, numbers_in}
use aigo.Resolve.{
  search_nodes, string_option, int_option, bool_option, float64_option, float64_at, non_blank,
  bool_of,
}

search_nodes-SameGraph {ℓ} :
    {A : Type ℓ} (g h : Graph) (f : Node → String → Option A) (keys : List String)
    → SameGraph g h
    → search_nodes g f keys ≡ search_nodes h f keys
unfolding search_nodes
search_nodes-SameGraph g h f keys same =
    ap (λ (at : String → Node). first_some (λ id. first_some (f (at id)) keys) (sorted_node_ids g))
      (fun_ext (node_at-SameGraph g h same))
    ∙ ap (first_some (λ id. first_some (f (node_at h id)) keys))
        (sorted_node_ids-SameGraph g h same)

-- `StringOption`, `IntOption`, `BoolOption`, `Float64Option`, `StringSliceOption` and
-- `Float64SliceOption` answer alike for two orders of one map: the order in which Go walks the graph
-- cannot change an option.
pub options-SameGraph :
    (floating : Floats) (g h : Graph) (keys : List String)
    → SameGraph g h
    → (string_option g keys ≡ string_option h keys)
      × (int_option floating g keys ≡ int_option floating h keys)
      × (bool_option g keys ≡ bool_option h keys)
      × (float64_option floating g keys ≡ float64_option floating h keys)
      × (string_slice_option g keys ≡ string_slice_option h keys)
      × (float64_slice_option floating g keys ≡ float64_slice_option floating h keys)
unfolding string_option int_option bool_option float64_option string_slice_option
    float64_slice_option
options-SameGraph floating g h keys same = (
  search_nodes-SameGraph g h (λ n k. non_blank (string_input n k)) keys same,
  search_nodes-SameGraph g h (int_input floating) keys same,
  search_nodes-SameGraph g h (λ n k. bool_of (input n k)) keys same,
  search_nodes-SameGraph g h (float64_at floating) keys same,
  search_nodes-SameGraph g h (λ n k. texts_in (input n k)) keys same,
  search_nodes-SameGraph g h (λ n k. numbers_in floating (input n k)) keys same,
)

-- A float64 input is read by `Float64Option` as an integer first: its fraction is cut off, and the
-- `case float64` of the source is never reached.
pub float64_at-float :
    (floating : Floats) (n : Node) (key : String) (f : Float64)
    → input n key ≡ some (Value.float f)
    → float64_at floating n key ≡ some (of_int (int_of_float floating f))
unfolding float64_at int_input as_int int_of
float64_at-float floating n key f h = rw (h, int_of) (ground arith)
