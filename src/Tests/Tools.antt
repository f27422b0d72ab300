-- ===== src/Tests/Tools.antt =====
-- Parameters of the tool for 3D models, and of the other tools.
use aigo.Base.{String, Bool, true, ◌≡◌, refl, none, [], ◌∷◌, ◌&&◌, ◌||◌, length, All, str_eq}
use aigo.Base.Assoc.{IsMap, get, has, put}
use aigo.Base.Text.{is_blank, is_space}
use aigo.Workflow.{Value}
use aigo.Tools.{
  Schema, Params, named, properties, plain, choice, array_of, object, properties_of, required_of,
  enum_of, one_of, provided, text_of, is_missing, is_blank_text, check_given, check_required,
  param_provided, matching, use_entry, check_text, check_enum, first_error, check_enums,
  check_group, check_groups, after_required, validate_params,
}
use aigo.Tools.Accepts
use aigo.Tools.Accepts.{is_given, is_chosen, Folded}
use aigo.Tools.Images.{generate_3d}

abbrev capital : String → String → Bool
capital s e = str_eq s e || (str_eq s "Refine" && str_eq e "refine")

abbrev chest : Params
chest =
    ("prompt", Value.str "a wooden chest")
    ∷ ("mode", Value.str "Refine")
    ∷ ("image_url", Value.str " ")
    ∷ []

abbrev chest_after : Params
chest_after =
    ("prompt", Value.str "a wooden chest")
    ∷ ("mode", Value.str "refine")
    ∷ ("image_url", Value.str " ")
    ∷ []

distinct_names : IsMap (properties_of generate_3d.parameters)
unfolding generate_3d properties_of object properties named plain choice array_of has
distinct_names = (refl, (refl, (refl, (refl, (refl, (refl, (refl, (refl, (refl, (refl, tt))))))))))

passes : validate_params capital generate_3d chest ≡ (none, chest_after)
unfolding generate_3d properties_of object properties named plain choice array_of has get put
    is_blank is_space required_of enum_of one_of provided text_of is_missing is_blank_text
    check_given check_required param_provided matching use_entry check_text check_enum first_error
    check_enums check_group check_groups after_required validate_params
passes = refl

validate_params-Accepts_example :
    (All (λ n. is_given (get chest n) ≡ true) (required_of generate_3d.parameters))
    × (All
        (λ (p : String × Schema). is_chosen (enum_of p.1) (text_of (get chest_after p.0)) ≡ true)
        (properties_of generate_3d.parameters))
    × (All (λ g. length (provided chest_after g) ≡ 1) (one_of generate_3d.parameters))
    × ((j : String) → Folded capital (get chest j) (get chest_after j))
validate_params-Accepts_example =
    Accepts.validate_params-Accepts capital generate_3d chest chest_after distinct_names passes
