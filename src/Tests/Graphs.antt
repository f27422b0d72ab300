-- ===== src/Tests/Graphs.antt =====
-- Graphs of one and two nodes, with a link and with a cycle.
use mathlib.Core.List.Perm
use text.Mathlib.TextEquality.{eq_iff}
use aigo.Base.{String, ◌≡◌, refl, ◌≢◌, false, none, [], ◌∷◌, str_eq, arith}
use aigo.Base.Assoc.{get, str_eq_refl}
use aigo.Base.Int.{pos, Float64, to_int}
use aigo.Base.Text.{is_blank, is_space}
use aigo.Workflow.{Floats, Node, Graph, input}
use aigo.Workflow.Order.{SameGraph}
use aigo.Resolve.{
  resolve_node, extract_prompt, float64_at, string_option, int_option, bool_option, float64_option,
}
use aigo.Resolve.Slices.{string_slice_option, float64_slice_option}
use aigo.Resolve.Cycles
use aigo.Resolve.Sources
use aigo.Resolve.Sources.{Source}
use aigo.Resolve.Options
use aigo.Tests.Data.{linked_nodes, cycle, text_node}

-- No text is a number.
abbrev no_floats : Floats
no_floats = record { parse = λ s. none; wide = λ i. i }

program : Unit {0}
unfolding get is_blank is_space resolve_node extract_prompt float64_at input
program = tt

extract_prompt-ne-none_example : extract_prompt cycle ≢ none
extract_prompt-ne-none_example = Cycles.extract_prompt-ne-none cycle

resolve_node-Source_example : Source linked_nodes "2" "a cat"
unfolding program
resolve_node-Source_example = Sources.resolve_node-Source 3 linked_nodes "2" [] "a cat" refl

abbrev swapped : Graph
swapped = ("a", text_node "x") ∷ ("b", text_node "y") ∷ []

abbrev unswapped : Graph
unswapped = ("b", text_node "y") ∷ ("a", text_node "x") ∷ []

pub get-swap :
    (i j id : String) (m n : Node)
    → str_eq i j ≡ false
    → get ((i, m) ∷ (j, n) ∷ []) id ≡ get ((j, n) ∷ (i, m) ∷ []) id
unfolding get
get-swap i j id m n h = ground (arith, eq_iff i id, eq_iff j id, str_eq_refl id)

swapped-SameGraph : SameGraph swapped unswapped
swapped-SameGraph = record {
  ids = Perm.swap "b" "a" [];
  nodes = λ id. get-swap "a" "b" id (text_node "x") (text_node "y") refl;
}

options-SameGraph_example :
    (string_option swapped ("text" ∷ []) ≡ string_option unswapped ("text" ∷ []))
    × (int_option no_floats swapped ("text" ∷ []) ≡ int_option no_floats unswapped ("text" ∷ []))
    × (bool_option swapped ("text" ∷ []) ≡ bool_option unswapped ("text" ∷ []))
    × (float64_option no_floats swapped ("text" ∷ [])
        ≡ float64_option no_floats unswapped ("text" ∷ []))
    × (string_slice_option swapped ("text" ∷ []) ≡ string_slice_option unswapped ("text" ∷ []))
    × (float64_slice_option no_floats swapped ("text" ∷ [])
        ≡ float64_slice_option no_floats unswapped ("text" ∷ []))
options-SameGraph_example =
    Options.options-SameGraph no_floats swapped unswapped ("text" ∷ []) swapped-SameGraph

-- 7.5 is stored as 15 / 2.
abbrev half_past_seven : Float64
half_past_seven = record { num = pos 15; shift = 1 }

cut_off : to_int half_past_seven ≡ pos 7
unfolding to_int
cut_off = refl
