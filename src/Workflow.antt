-- ===== src/Workflow.antt =====
-- workflow/types.go: the graph of nodes, and how inputs are read from it.
pub mod Order
pub mod Validity
use Prim.Native.String.{◌++◌ as text_append}
use aigo.Base.{
  ℕ, ◌^◌, ltb, String, Bool, true, false, ◌&&◌, Option, none, some, List, [], ◌∷◌, map, select,
  str_eq, if◌then◌else◌,
}
use aigo.Base.Assoc.{Map, get, keys}
use aigo.Base.Int.{ℤ, pos, negsuc, Float64, to_int}
use aigo.Base.Number.{atoi}
use aigo.Base.Sort.{sort_strings}
use aigo.Base.Text.{is_blank}
use aigo.Errors.{Error, Outcome, ok, err}

-- What an `any` input can hold. `sized` is an int8, int16, int32 or int64, `float32` a float32,
-- `number` a `json.Number` by its text; `strs`, `ints` and `floating` are typed slices, `list` is
-- `[]any` and `object` is `map[string]any`.
mutual
  pub data Value : Type 0 where
    null : Value
    str : String → Value
    int : ℤ → Value
    sized : ℤ → Value
    float : Float64 → Value
    float32 : Float64 → Value
    number : String → Value
    bool : Bool → Value
    strs : List String → Value
    ints : List ℤ → Value
    floats : List Float64 → Value
    list : Values → Value
    object : Fields → Value

  pub data Values : Type 0 where
    nil : Values
    cons : Value → Values → Values

  pub data Fields : Type 0 where
    end : Fields
    field : String → Value → Fields → Fields

-- `Node`. A nil `Inputs` map reads as the empty one.
pub record Node : Type 0 where
  pub class_type : String
  pub inputs : Map Value

-- `Graph`, in the order in which a `range` loop would meet the nodes.
abbrev pub Graph : Type 0
Graph = Map Node

-- `NodeRef`
pub record NodeRef : Type 0 where
  pub id : String
  pub node : Node

abbrev pub empty_graph : Error
empty_graph = Error.plain "workflow: graph is empty"

abbrev pub empty_node_id : Error
empty_node_id = Error.plain "workflow: graph contains empty node id"

abbrev pub missing_class_type : String → Error
missing_class_type id =
    Error.plain (text_append "workflow: node " (text_append id " is missing class_type"))

-- The loop of `Validate`.
validate_nodes : Graph → Option Error
validate_nodes [] = none
validate_nodes ((id, node) ∷ g) =
    let rest = validate_nodes g in
    if is_blank id
    then some empty_node_id
    else if is_blank node.class_type
    then some (missing_class_type id)
    else rest

-- `Validate`
unfoldable pub validate : Graph → Option Error
unfolding validate_nodes
validate [] = some empty_graph
validate (n ∷ g) = validate_nodes (n ∷ g)

-- `SortedNodeIDs`
unfoldable pub sorted_node_ids : Graph → List String
sorted_node_ids g = sort_strings (keys g)

-- `g[id]` for an id of the graph; Go reads the zero `Node` for another id.
unfoldable pub node_at : Graph → String → Node
node_at g id = elim (get g id) [ some n ↦ n | none ↦ record { class_type = ""; inputs = [] } ]

refs_of : Graph → String → List String → List NodeRef
refs_of g class_type [] = []
refs_of g class_type (id ∷ ids) =
    let rest = refs_of g class_type ids in
    if str_eq (node_at g id).class_type class_type
    then record { id = id; node = node_at g id } ∷ rest
    else rest

-- `FindByClassType`
unfoldable pub find_by_class_type : Graph → String → List NodeRef
unfolding refs_of node_at
find_by_class_type g class_type = refs_of g class_type (sorted_node_ids g)

-- `Input`
unfoldable pub input : Node → String → Option Value
input n name = get n.inputs name

as_string : Option Value → Option String
as_string (some (Value.str s)) = some s
as_string _ = none

-- `StringInput`
unfoldable pub string_input : Node → String → Option String
unfolding as_string input
string_input n name = as_string (input n name)

-- `strconv.ParseFloat` of a text, as far as it gives a finite number, and what Go makes of a number
-- that no `int64` holds where it converts a float: the language leaves that open.
pub record Floats : Type 0 where
  pub parse : String → Option Float64
  pub wide : ℤ → ℤ

fits : ℤ → Bool
fits (pos n) = ltb n (2 ^ 63)
fits (negsuc n) = ltb n (2 ^ 63)

-- `int(f)`
unfoldable pub int_of_float : Floats → Float64 → ℤ
unfolding fits
int_of_float floating f = if fits (to_int f) then to_int f else floating.wide (to_int f)

json_int : Floats → Option ℤ → Option Float64 → Option ℤ
unfolding int_of_float
json_int floating (some i) f = some i
json_int floating none none = none
json_int floating none (some f) = some (int_of_float floating f)

-- `asInt`; `none` stands for its error.
unfoldable pub as_int : Floats → Value → Option ℤ
unfolding json_int int_of_float
as_int floating (Value.int i) = some i
as_int floating (Value.sized i) = some i
as_int floating (Value.float32 f) = some (int_of_float floating f)
as_int floating (Value.float f) = some (int_of_float floating f)
as_int floating (Value.number s) = json_int floating (atoi s) (floating.parse s)
as_int floating (Value.str s) = atoi s
as_int floating _ = none

unfoldable pub int_of : Floats → Option Value → Option ℤ
int_of floating none = none
int_of floating (some v) = as_int floating v

-- `IntInput`
unfoldable pub int_input : Floats → Node → String → Option ℤ
unfolding int_of
int_input floating n name = int_of floating (input n name)
