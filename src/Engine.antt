-- ===== src/Engine.antt =====
-- engine/engine.go and output.go: what an engine is to the client, and how its output is classified.
pub mod Output
use aigo.Base.{
  ℕ, ◌-◌, ◌+◌, String, Bool, true, false, ◌&&◌, ◌||◌, Option, none, some, List, [], ◌∷◌, leb, ◌==◌,
  str_eq, if◌then◌else◌,
}
use aigo.Base.Assoc.{Map}
use aigo.Base.Codes.{codes, lower_codes, has_prefix}
use aigo.Base.Int.{ℤ}
use aigo.Base.Text.{trim_space}
use aigo.Errors.{Error, Outcome}
use aigo.Workflow.{Graph}

-- `OutputKind`
pub data OutputKind : Type 0 where
  unknown url data_uri json plain_text : OutputKind

-- `ResultItem`
pub record ResultItem : Type 0 where
  pub value : String
  pub kind : OutputKind
  pub metadata : Map String

-- `Result` of the engine package
pub record EngineResult : Type 0 where
  pub value : String
  pub kind : OutputKind
  pub results : List ResultItem

-- `Capability`
pub record Capability : Type 0 where
  pub media_types : List String
  pub models : List String
  pub sizes : List String
  pub voices : List String
  pub max_duration : ℤ
  pub max_images : ℤ
  pub max_prompt_chars : ℤ
  pub supports_sync : Bool
  pub supports_poll : Bool

-- `DryRunResult`
pub record DryRunResult : Type 0 where
  pub will_poll : Bool
  pub estimated_time : String
  pub warnings : List String

-- An `Engine` whose backend, clock and context are a state of type `W`. The optional interfaces
-- `Describer`, `Resumer` and `DryRunner` are absent or present.
pub record Engine (W : Type 0) : Type 0 where
  pub execute : Graph → W → Outcome EngineResult × W
  pub capabilities : Option Capability
  pub resume : Option (String → W → Outcome EngineResult × W)
  pub dry_run : Option (Graph → Outcome DryRunResult)

opens_json : List ℕ → Bool
opens_json [] = false
opens_json (c ∷ s) = c == b'{' || c == b'['

-- The ladder of returns of `ClassifyOutput`, on its tests.
kind_of : Bool → Bool → Bool → Bool → OutputKind
kind_of empty data_prefix http_prefix json_start =
    if empty
    then OutputKind.unknown
    else if data_prefix
    then OutputKind.data_uri
    else if http_prefix
    then OutputKind.url
    else if json_start
    then OutputKind.json
    else OutputKind.plain_text

-- `ClassifyOutput` on a trimmed text
classify_trimmed : String → OutputKind
unfolding opens_json kind_of
classify_trimmed s =
    kind_of (str_eq s "") (has_prefix (codes s) (codes "data:"))
      (has_prefix (lower_codes s) (codes "http://")
        || has_prefix (lower_codes s) (codes "https://"))
      (opens_json (codes s))

-- `ClassifyOutput`
unfoldable pub classify_output : String → OutputKind
unfolding classify_trimmed
classify_output s = classify_trimmed (trim_space s)

-- `k == OutputUnknown`
abbrev pub is_unknown : OutputKind → Bool
is_unknown OutputKind.unknown = true
is_unknown _ = false
