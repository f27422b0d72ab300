-- ===== src/Tools/Tables.antt =====
-- tooldef/tooldef.go: the list of all tools and the choice by category.
use aigo.Base.{
  map, String, Bool, true, ◌≡◌, refl, List, [], ◌∷◌, ◌&&◌, not, ◌||◌, select, some_of, str_eq,
}
use aigo.Base.Assoc.{has, keys}
use aigo.Tools.{
  Schema, ToolDef, named, properties, plain, choice, array_of, defaulted, object, properties_of,
  required_of, enum_of, default_of, one_of,
}
use aigo.Tools.Images.{generate_image, edit_image, understand_image, generate_3d}
use aigo.Tools.Sounds.{
  text_to_speech, design_voice, transcribe_audio, generate_music, generate_sfx, mix_audio,
}
use aigo.Tools.Videos.{generate_video, edit_video, search_material}

-- `AllTools`
unfoldable pub all_tools : List ToolDef
all_tools =
    generate_image ∷ generate_video ∷ generate_3d ∷ text_to_speech ∷ design_voice ∷ edit_image
    ∷ edit_video ∷ transcribe_audio ∷ generate_music ∷ generate_sfx ∷ mix_audio ∷ understand_image
    ∷ search_material ∷ []

-- `ToolsFor`
unfoldable pub tools_for : List String → List ToolDef
unfolding all_tools
tools_for categories =
    select (λ (t : ToolDef). some_of (λ c. str_eq c t.category) categories) all_tools

abbrev every : {A : Type 0} → (A → Bool) → List A → Bool
every p [] = true
every p (x ∷ xs) = p x && every p xs

abbrev distinct : List String → Bool
distinct [] = true
distinct (k ∷ ks) = not (some_of (λ j. str_eq j k) ks) && distinct ks

-- A default is empty, or the property has no enum, or the default is in it.
abbrev fits : String → List String → Bool
fits default [] = true
fits default (e ∷ enum) = str_eq default "" || some_of (λ x. str_eq x default) (e ∷ enum)

abbrev is_sound : Schema → Bool
is_sound s =
    distinct (keys (properties_of s))
    && every (λ n. has (properties_of s) n) (required_of s)
    && every (λ g. every (λ n. has (properties_of s) n) g) (one_of s)
    && every (λ (p : String × Schema). fits (default_of p.1) (enum_of p.1)) (properties_of s)

-- Each tool has no property twice, requires and groups only names of its properties, and has
-- defaults out of its enums; no two tools have the same name.
all_tools_sound :
    (every (λ (t : ToolDef). is_sound t.parameters) all_tools ≡ true)
    × (distinct (map (λ (t : ToolDef). t.name) all_tools) ≡ true)
unfolding all_tools generate_image edit_image understand_image generate_3d text_to_speech
    design_voice transcribe_audio generate_music generate_sfx mix_audio generate_video edit_video
    search_material plain choice array_of defaulted object named properties_of required_of enum_of
    default_of one_of has properties
all_tools_sound = (refl, refl)
