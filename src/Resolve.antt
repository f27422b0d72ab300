-- ===== src/Resolve.antt =====
-- workflow/resolve/resolve.go and duration.go: prompts, links between nodes, and options that are
-- searched over the whole graph.
pub mod Cycles
pub mod Options
pub mod Prompts
pub mod Slices
pub mod Sources
use Prim.Native.String.{◌++◌ as text_append}
use aigo.Base.{
  ℕ, zero, suc, String, Bool, true, false, not, Option, none, some, List, [], ◌∷◌, ◌++◌, length,
  some_of, first_some, str_eq, if◌then◌else◌, ltb,
}
use aigo.Base.Assoc.{get}
use aigo.Base.Int.{ℤ, Float64, of_int, is_pos, is_pos_float}
use aigo.Base.Text.{is_blank}
use aigo.Errors.{Error, Outcome, ok, err}
use aigo.Workflow.{
  Value, Values, Node, NodeRef, Graph, Floats, sorted_node_ids, node_at, find_by_class_type, input,
  string_input, int_input,
}

-- The keys that `ResolveNodeString` tries, in order.
abbrev pub text_keys : List String
text_keys = "text" ∷ "prompt" ∷ "string" ∷ "value" ∷ []

abbrev pub cycle_at : String → Error
cycle_at id = Error.plain (text_append "cycle detected at node " id)

abbrev pub node_missing : String → Error
node_missing id = Error.plain (text_append (text_append "node " id) " not found")

-- What a resolution gives: no string, a string, or an error. `none` means that the fuel ran out.
abbrev pub Resolved : Type 0
Resolved = Option (Outcome (Option String))

-- A resolved string counts if it is not blank; otherwise the next key is tried.
keep_unless_blank : Resolved → Resolved → Resolved
keep_unless_blank none rest = none
keep_unless_blank (some (err e)) rest = some (err e)
keep_unless_blank (some (ok none)) rest = rest
keep_unless_blank (some (ok (some s))) rest = if is_blank s then rest else some (ok (some s))

-- `ResolveLinkString`: the first item of the reference names the node that is asked.
resolve_link : (String → Resolved) → Values → Resolved
resolve_link ask (Values.cons (Value.str id) vs) = ask id
resolve_link ask _ = some (ok none)

-- `ResolveValueString`
resolve_value : (String → Resolved) → Value → Resolved
unfolding resolve_link
resolve_value ask (Value.str s) = some (ok (some s))
resolve_value ask (Value.list vs) = resolve_link ask vs
resolve_value ask _ = some (ok none)

-- The loop over the keys.
try_keys : (String → Resolved) → Node → List String → Resolved
unfolding resolve_value keep_unless_blank
try_keys ask n [] = some (ok none)
try_keys ask n (k ∷ ks) =
    let rest = try_keys ask n ks in
    elim (input n k) [ none ↦ rest | some v ↦ keep_unless_blank (resolve_value ask v) rest ]

found_node : (String → Resolved) → String → Option Node → Resolved
unfolding try_keys
found_node ask id none = some (err (node_missing id))
found_node ask id (some n) = try_keys ask n text_keys

-- `ResolveNodeString`. `seen` is the path of nodes above this one: each link is followed with a
-- copy of it.
unfoldable pub resolve_node : ℕ → Graph → String → List String → Resolved
unfolding found_node
resolve_node zero g id seen = none
resolve_node (suc f) g id seen =
    let answer = found_node (λ link. resolve_node f g link (id ∷ seen)) id (get g id) in
    if some_of (λ j. str_eq j id) seen then some (err (cycle_at id)) else answer

-- One more than the nodes of the graph: a path repeats no node.
abbrev pub path_fuel : Graph → ℕ
path_fuel g = suc (length g)

non_blank : Option String → Option String
non_blank none = none
non_blank (some s) = if is_blank s then none else some s

-- The search of the options: node ids in order, and the keys in order at each node.
pub search_nodes {ℓ} : {A : Type ℓ} → Graph → (Node → String → Option A) → List String → Option A
search_nodes g f keys = first_some (λ id. first_some (f (node_at g id)) keys) (sorted_node_ids g)

-- `StringOption`
unfoldable pub string_option : Graph → List String → Option String
unfolding non_blank search_nodes
string_option g keys = search_nodes g (λ n k. non_blank (string_input n k)) keys

-- `IntOption`
unfoldable pub int_option : Floats → Graph → List String → Option ℤ
unfolding search_nodes
int_option floating g keys = search_nodes g (int_input floating) keys

-- `strconv.ParseBool`
parse_bool : String → Option Bool
parse_bool s =
    if some_of (str_eq s) ("1" ∷ "t" ∷ "T" ∷ "TRUE" ∷ "true" ∷ "True" ∷ [])
    then some true
    else if some_of (str_eq s) ("0" ∷ "f" ∷ "F" ∷ "FALSE" ∷ "false" ∷ "False" ∷ [])
    then some false
    else none

bool_of : Option Value → Option Bool
unfolding parse_bool
bool_of (some (Value.bool b)) = some b
bool_of (some (Value.str s)) = parse_bool s
bool_of _ = none

-- `BoolOption`
unfoldable pub bool_option : Graph → List String → Option Bool
unfolding bool_of search_nodes
bool_option g keys = search_nodes g (λ n k. bool_of (input n k)) keys

-- The `switch` of `Float64Option`, reached if the input is not an integer.
float_of : Floats → Option Value → Option Float64
float_of floating (some (Value.float f)) = some f
float_of floating (some (Value.str s)) = floating.parse s
float_of floating _ = none

int_or : Option ℤ → Option Float64 → Option Float64
int_or (some i) rest = some (of_int i)
int_or none rest = rest

unfoldable pub float64_at : Floats → Node → String → Option Float64
unfolding float_of int_or
float64_at floating n k = int_or (int_input floating n k) (float_of floating (input n k))

-- `Float64Option`
unfoldable pub float64_option : Floats → Graph → List String → Option Float64
unfolding float64_at search_nodes
float64_option floating g keys = search_nodes g (float64_at floating) keys

-- The body of the loop of `ExtractPrompt` over the `CLIPTextEncode` nodes.
prompt_of : Resolved → Option (Outcome String) → Option (Outcome String)
prompt_of none rest = none
prompt_of (some (err e)) rest = some (err (Error.wrap "resolve prompt from node" e))
prompt_of (some (ok none)) rest = rest
prompt_of (some (ok (some s))) rest = if is_blank s then rest else some (ok s)

prompt_from : Graph → List NodeRef → Option (Outcome String) → Option (Outcome String)
unfolding prompt_of
prompt_from g [] fallback = fallback
prompt_from g (r ∷ rs) fallback =
    prompt_of (resolve_node (path_fuel g) g r.id []) (prompt_from g rs fallback)

or_empty : Option String → String
or_empty none = ""
or_empty (some s) = s

-- `ExtractPrompt`
unfoldable pub extract_prompt : Graph → Option (Outcome String)
unfolding prompt_from or_empty
extract_prompt g = prompt_from g (find_by_class_type g "CLIPTextEncode") (
    some (
      ok
        (or_empty (first_some (λ k. string_option g (k ∷ [])) ("prompt" ∷ "text" ∷ "value" ∷ [])))))

-- `toFloat64`
to_float64 : Value → Option Float64
to_float64 (Value.float f) = some f
to_float64 (Value.int i) = some (of_int i)
to_float64 (Value.float32 f) = some f
to_float64 _ = none

positive : Option Float64 → Option Float64
positive none = none
positive (some f) = if is_pos_float f then some f else none

duration_input : Option Value → Option Float64
unfolding to_float64 positive
duration_input none = none
duration_input (some v) = positive (to_float64 v)

positive_int : Option ℤ → Option Float64
positive_int none = none
positive_int (some i) = if is_pos i then some (of_int i) else none

abbrev pub or_else {ℓ} : {A : Type ℓ} → Option A → Option A → Option A
or_else none rest = rest
or_else (some a) rest = some a

-- `ExtractDuration`
unfoldable pub extract_duration : Floats → Graph → Option Float64
unfolding duration_input positive positive_int
extract_duration floating g =
    or_else
      (first_some (λ (r : NodeRef). duration_input (input r.node "duration"))
        (find_by_class_type g "VideoOptions"))
      (or_else (positive (float64_option floating g ("duration" ∷ [])))
        (positive_int (int_option floating g ("duration" ∷ []))))
