-- ===== src/Tools.antt =====
-- tooldef/tooldef.go: the schemas of the tools and the check of their parameters. The loop over the
-- map of properties meets them in the order of the list. `fold` is `strings.EqualFold`. The texts of
-- the errors are written without the quotes of `%q`.
pub mod Accepts
pub mod Images
pub mod Sounds
pub mod Tables
pub mod Videos
use aigo.Base.{
  String, Bool, true, false, not, Option, none, some, List, [], ◌∷◌, select, str_eq, if◌then◌else◌,
}
use aigo.Base.Assoc.{Map, get, put}
use aigo.Base.Cut.{join}
use aigo.Base.Scan.{◌<>◌}
use aigo.Base.Text.{is_blank}
use aigo.Errors.{Error}
use aigo.Workflow.{Value, Values}

-- `Schema`, with its fields in the order of the source: `Properties` is a list of its own and `Items`
-- a pointer that may be nil.
mutual
  pub data Schema : Type 0 where
    schema :
        String
        → String
        → Properties
        → List String
        → List String
        → String
        → Items
        → List (List String)
        → Schema

  pub data Properties : Type 0 where
    end : Properties
    property : String → Schema → Properties → Properties

  pub data Items : Type 0 where
    nil : Items
    each : Schema → Items

-- `ToolDef`
pub record ToolDef : Type 0 where
  pub name : String
  pub description : String
  pub category : String
  pub parameters : Schema

-- The entries of a map of properties.
unfoldable pub named : Properties → Map Schema
named end = []
named (property name s ps) = (name, s) ∷ named ps

unfoldable pub properties : Map Schema → Properties
properties [] = end
properties ((name, s) ∷ ps) = property name s (properties ps)

-- The shapes of the schemas of the tools: a type and a description, with a default, with an enum
-- and a default, with the type of the items of an array, and the object that a tool takes.
unfoldable pub plain : String → String → Schema
plain kind description = schema kind description end [] [] "" nil []

unfoldable pub defaulted : String → String → String → Schema
defaulted kind description default = schema kind description end [] [] default nil []

unfoldable pub choice : String → List String → String → Schema
choice description enum default = schema "string" description end [] enum default nil []

unfoldable pub array_of : String → String → Schema
unfolding plain
array_of kind description = schema "array" description end [] [] "" (each (plain kind "")) []

unfoldable pub object : Map Schema → List String → List (List String) → Schema
unfolding properties
object ps required one_of = schema "object" "" (properties ps) required [] "" nil one_of

unfoldable pub properties_of : Schema → Map Schema
unfolding named
properties_of (schema _ _ ps _ _ _ _ _) = named ps

unfoldable pub required_of : Schema → List String
required_of (schema _ _ _ required _ _ _ _) = required

unfoldable pub enum_of : Schema → List String
enum_of (schema _ _ _ _ enum _ _ _) = enum

unfoldable pub default_of : Schema → String
default_of (schema _ _ _ _ _ default _ _) = default

unfoldable pub one_of : Schema → List (List String)
one_of (schema _ _ _ _ _ _ _ groups) = groups

-- `map[string]interface{}`
abbrev pub Params : Type 0
Params = Map Value

-- `!ok || v == nil`
unfoldable pub is_missing : Option Value → Bool
is_missing none = true
is_missing (some Value.null) = true
is_missing (some _) = false

-- `v.(string)`
unfoldable pub text_of : Option Value → Option String
text_of (some (Value.str s)) = some s
text_of _ = none

-- A string that is blank.
unfoldable pub is_blank_text : Option String → Bool
is_blank_text none = false
is_blank_text (some s) = is_blank s

-- The error for one required name, if its value is missing, nil or a blank string.
unfoldable pub check_given : String → Option Value → Option Error
unfolding is_missing text_of is_blank_text
check_given name v =
    if is_missing v
    then some (Error.plain ("parameter " <> name <> " is required"))
    else if is_blank_text (text_of v)
    then some (Error.plain ("parameter " <> name <> " is required (got empty string)"))
    else none

-- The loop over the required names.
unfoldable pub check_required : Params → List String → Option Error
check_required params [] = none
check_required params (name ∷ names) = elim (check_given name (get params name)) [
  | some e ↦ some e
  | none ↦ check_required params names
]

-- `paramProvided`
unfoldable pub param_provided : Option Value → Bool
param_provided none = false
param_provided (some Value.null) = false
param_provided (some (Value.str s)) = not (is_blank s)
param_provided (some (Value.list Values.nil)) = false
param_provided (some (Value.strs [])) = false
param_provided (some _) = true

-- Goes on unless there was an error.
unfoldable pub first_error : Option Error × Params → Option Error × Params → Option Error × Params
first_error (some e, params) rest = (some e, params)
first_error (none, params) rest = rest

module _ (fold : String → String → Bool) where
  -- The first entry of the enum that is the text up to case.
  unfoldable pub matching : String → List String → Option String
  matching s [] = none
  matching s (e ∷ enum) = if fold s e then some e else matching s enum

  -- The text becomes the entry of the enum, or the call fails.
  unfoldable pub use_entry :
      String → String → List String → Option String → Params → Option Error × Params
  use_entry name s enum (some e) params = (none, put params name (Value.str e))
  use_entry name s enum none params = (
    some (
        Error.plain (
          "parameter "
          <> name
          <> " value "
          <> s
          <> " is not valid, must be one of: "
          <> join ", " enum)),
    params,
  )

  -- Only strings are compared with the enum.
  unfoldable pub check_text : String → List String → Option String → Params → Option Error × Params
  unfolding matching use_entry
  check_text name enum (some s) params = use_entry name s enum (matching s enum) params
  check_text name enum none params = (none, params)

  -- A property without an enum is left alone.
  unfoldable pub check_enum : String → List String → Params → Option Error × Params
  unfolding check_text text_of
  check_enum name [] params = (none, params)
  check_enum name (e ∷ enum) params = check_text name (e ∷ enum) (text_of (get params name)) params

  -- The loop over the properties. What it wrote before an error stays written.
  unfoldable pub check_enums : Map Schema → Params → Option Error × Params
  unfolding check_enum first_error
  check_enums [] params = (none, params)
  check_enums ((name, prop) ∷ props) params =
      let checked = check_enum name (enum_of prop) params in
      first_error checked (check_enums props checked.1)

-- The names of a group that are provided.
unfoldable pub provided : Params → List String → List String
provided params group = select (λ name. param_provided (get params name)) group

-- The error for one group, from the names that are provided.
unfoldable pub check_group : List String → List String → Option Error
check_group group [] =
    some (Error.plain ("exactly one of [" <> join ", " group <> "] must be provided"))
check_group group (name ∷ []) = none
check_group group (name ∷ other ∷ names) = some (
    Error.plain (
      "parameters "
      <> join ", " (name ∷ other ∷ names)
      <> " are mutually exclusive; provide exactly one of ["
      <> join ", " group
      <> "]"))

-- The loop over the groups.
unfoldable pub check_groups : Params → List (List String) → Option Error
unfolding provided check_group
check_groups params [] = none
check_groups params (group ∷ groups) = elim (check_group group (provided params group)) [
  | some e ↦ some e
  | none ↦ check_groups params groups
]

-- What follows the loop over the required names.
unfoldable pub after_required :
    (String → String → Bool) → ToolDef → Option Error → Params → Option Error × Params
unfolding check_enums properties_of first_error check_groups one_of
after_required fold def (some e) params = (some e, params)
after_required fold def none params =
    let checked = check_enums fold (properties_of def.parameters) params in
    first_error checked (check_groups checked.1 (one_of def.parameters), checked.1)

-- `ValidateParams`: the error, and the parameters as the call leaves them.
unfoldable pub validate_params : (String → String → Bool) → ToolDef → Params → Option Error × Params
unfolding after_required check_required required_of
validate_params fold def params =
    after_required fold def (check_required params (required_of def.parameters)) params
