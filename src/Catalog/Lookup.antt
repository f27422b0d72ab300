-- ===== src/Catalog/Lookup.antt =====
-- engine/models.go: what is registered is found, and the lists are sorted.
use mathlib.Core.List.{Perm}
use aigo.Base.{
  String, Bool, true, false, ◌≡◌, refl, ◌∙◌, ap, Option, none, some, List, [], ◌∷◌, select, str_eq,
  if◌then◌else◌,
}
use aigo.Base.Assoc.{get, put, get-put}
use aigo.Base.Sort.{IsSorted, sort-IsSorted, sort-perm}
use aigo.Base.Text.{str_leb-total, str_leb_trans}
use aigo.Resolve.{or_else}
use aigo.Uri.{ToLower}
use aigo.Catalog.{
  ModelInfo, ModelInfos, register_model_infos, lookup_model_info, values, by_model_name,
  infos_where, matches_query, search_model_infos, model_infos_by_capability,
  model_infos_by_provider,
}

-- The last info of a name in a list.
abbrev pub last_named : String → List ModelInfo → Option ModelInfo
last_named name [] = none
last_named name (i ∷ is) =
    or_else (last_named name is) (if str_eq i.name name then some i else none)

or_else_assoc :
    (a b : Option ModelInfo) (t : Bool) (i : ModelInfo)
    → or_else a (if t then some i else b) ≡ or_else (or_else a (if t then some i else none)) b
or_else_assoc none b true i = refl
or_else_assoc none b false i = refl
or_else_assoc (some x) b t i = refl

-- After `RegisterModelInfos`, `LookupModelInfo` finds the last info of the list with the name, and
-- otherwise what it found before.
pub lookup_model_info-register :
    (infos : ModelInfos) (is : List ModelInfo) (name : String)
    → lookup_model_info (register_model_infos infos is) name
      ≡ or_else (last_named name is) (lookup_model_info infos name)
unfolding lookup_model_info register_model_infos
lookup_model_info-register infos [] name = refl
lookup_model_info-register infos (i ∷ is) name =
    lookup_model_info-register (put infos i.name i) is name
    ∙ ap (or_else (last_named name is)) (get-put infos i.name name i)
    ∙ or_else_assoc (last_named name is) (get infos name) (str_eq i.name name) i

infos_where-IsSorted :
    (p : ModelInfo → Bool) (infos : ModelInfos)
    → IsSorted by_model_name (infos_where p infos)
      × Perm (infos_where p infos) (select p (values infos))
unfolding infos_where
infos_where-IsSorted p infos = (
  sort-IsSorted by_model_name (λ a b. str_leb-total a.name b.name)
      (λ a b c. str_leb_trans a.name b.name c.name) (select p (values infos)),
  sort-perm by_model_name (select p (values infos)),
)

-- `ModelInfosByCapability`, `ModelInfosByProvider` and `SearchModelInfos` give the registered infos of the
-- capability, of the provider, or with the query in the name or a display name, each once for each entry,
-- sorted by name.
pub model_infos_lem :
    (to_lower : ToLower) (infos : ModelInfos) (text : String)
    → (IsSorted by_model_name (model_infos_by_capability infos text)
        × Perm
            (model_infos_by_capability infos text)
            (select (λ (i : ModelInfo). str_eq i.capability text) (values infos)))
      × (IsSorted by_model_name (model_infos_by_provider infos text)
          × Perm
              (model_infos_by_provider infos text)
              (select (λ (i : ModelInfo). str_eq i.provider text) (values infos)))
      × (IsSorted by_model_name (search_model_infos to_lower infos text)
          × Perm
              (search_model_infos to_lower infos text)
              (select (matches_query to_lower (to_lower text)) (values infos)))
unfolding model_infos_by_capability model_infos_by_provider search_model_infos
model_infos_lem to_lower infos text =
    (infos_where-IsSorted _ infos, infos_where-IsSorted _ infos, infos_where-IsSorted _ infos)
