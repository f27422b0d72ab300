-- ===== src/Catalog.antt =====
-- engine/registry.go and models.go: the registry of providers and the catalogue of models. A Go map with a
-- nil function has none of its entries.
pub mod Lookup
use aigo.Base.{
  ℕ, String, Bool, true, false, ◌||◌, Option, none, some, List, [], ◌∷◌, length, select, some_of,
  str_eq, if◌then◌else◌,
}
use aigo.Base.Assoc.{Map, get, has, put, keys}
use aigo.Base.Cut.{cut_text}
use aigo.Base.Sort.{sort, sort_strings}
use aigo.Base.Text.{str_leb}
use aigo.Uri.{ToLower}

-- `DisplayName`
abbrev pub DisplayName : Type 0
DisplayName = Map String

-- `ModelInfo`
pub record ModelInfo : Type 0 where
  pub name : String
  pub provider : String
  pub display_name : DisplayName
  pub description : DisplayName
  pub intro : DisplayName
  pub doc_url : String
  pub capability : String
  pub deprecated : Bool
  pub tags : List String

-- `modelInfos`
abbrev pub ModelInfos : Type 0
ModelInfos = Map ModelInfo

-- `RegisterModelInfos`
unfoldable pub register_model_infos : ModelInfos → List ModelInfo → ModelInfos
register_model_infos infos [] = infos
register_model_infos infos (i ∷ is) = register_model_infos (put infos i.name i) is

-- `LookupModelInfo`
unfoldable pub lookup_model_info : ModelInfos → String → Option ModelInfo
lookup_model_info infos model = get infos model

abbrev pub values {ℓ} : {V : Type ℓ} → Map V → List V
values [] = []
values ((k, v) ∷ m) = v ∷ values m

-- The order of the names.
abbrev pub by_model_name : ModelInfo → ModelInfo → Bool
by_model_name a b = str_leb a.name b.name

-- The infos that pass a test, sorted by name.
unfoldable pub infos_where : (ModelInfo → Bool) → ModelInfos → List ModelInfo
infos_where p infos = sort by_model_name (select p (values infos))

-- `AllModelInfos`
unfoldable pub all_model_infos : ModelInfos → List ModelInfo
unfolding infos_where
all_model_infos infos = infos_where (λ i. true) infos

-- `ModelInfosByCapability`
unfoldable pub model_infos_by_capability : ModelInfos → String → List ModelInfo
unfolding infos_where
model_infos_by_capability infos cap = infos_where (λ i. str_eq i.capability cap) infos

-- `ModelInfosByProvider`
unfoldable pub model_infos_by_provider : ModelInfos → String → List ModelInfo
unfolding infos_where
model_infos_by_provider infos provider = infos_where (λ i. str_eq i.provider provider) infos

-- `strings.Contains`
contains : String → String → Bool
contains s q = str_eq q "" || elim (cut_text q s) [ none ↦ false | some p ↦ true ]

-- The test of `SearchModelInfos`: the name, or the display name in some language.
unfoldable pub matches_query : ToLower → String → ModelInfo → Bool
unfolding contains
matches_query to_lower q i =
    contains (to_lower i.name) q || some_of (λ v. contains (to_lower v) q) (values i.display_name)

-- `SearchModelInfos`
unfoldable pub search_model_infos : ToLower → ModelInfos → String → List ModelInfo
unfolding infos_where matches_query
search_model_infos to_lower infos query =
    infos_where (matches_query to_lower (to_lower query)) infos

-- `ConfigField`
pub record ConfigField : Type 0 where
  pub key : String
  pub label : String
  pub type : String
  pub required : Bool
  pub env_var : String
  pub description : String
  pub default : String

-- `Entry`, for engines of type `E`
pub record Entry (E : Type 0) : Type 0 where
  pub name : String
  pub display_name : DisplayName
  pub engine : Option E
  pub config_schema_func : Option (List ConfigField)
  pub models_by_capability : Option (Map (List String))

-- The entries that give a value, under their names.
collected : {E V : Type 0} → (Entry E → Option V) → Map (Entry E) → Map V
collected f [] = []
collected f ((name, e) ∷ entries) =
    let rest = collected f entries in elim (f e) [ none ↦ rest | some v ↦ (name, v) ∷ rest ]

serves_type : {E : Type 0} → String → Entry E → Bool
serves_type media_type e = elim e.models_by_capability [
  | none ↦ false
  | some models ↦ has models media_type
]

-- The `Registry`, by its entries.
module _ {E : Type 0} where
  -- `Register`
  unfoldable pub register_entry_named : Map (Entry E) → String → Entry E → Map (Entry E)
  register_entry_named entries name e = put entries name (record e { name = name })

  -- `Get`
  unfoldable pub get_entry : Map (Entry E) → String → Option (Entry E)
  get_entry entries name = get entries name

  -- `List`
  unfoldable pub list_entries : Map (Entry E) → List String
  list_entries entries = sort_strings (keys entries)

  -- `FindByCapability`, in the order of the map.
  unfoldable pub find_by_capability : Map (Entry E) → String → List (Entry E)
  unfolding serves_type
  find_by_capability entries media_type = select (serves_type media_type) (values entries)

  -- `AllModels`
  unfoldable pub all_models : Map (Entry E) → Map (Map (List String))
  unfolding collected
  all_models entries = collected (λ e. e.models_by_capability) entries

  -- `AllConfigSchemas`
  unfoldable pub all_config_schemas : Map (Entry E) → Map (List ConfigField)
  unfolding collected
  all_config_schemas entries = collected (λ e. e.config_schema_func) entries

  -- `Len`
  unfoldable pub entries_len : Map (Entry E) → ℕ
  entries_len entries = length entries
