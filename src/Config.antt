-- ===== src/Config.antt =====
-- engine/factory.go and engine/auth.go: the configuration of an engine, its metadata, the registered
-- factories, and the keys that come from a configuration or from the environment.
pub mod Keys
use aigo.Base.{
  ℕ, String, Bool, true, false, not, Option, none, some, List, [], ◌∷◌, map, ◌==◌, str_eq,
  if◌then◌else◌,
}
use aigo.Base.Assoc.{Map, get, has, put, keys}
use aigo.Base.Cut.{join}
use aigo.Base.Int.{ℤ, pos, negsuc}
use aigo.Base.Number.{atoi}
use aigo.Base.Scan.{◌<>◌}
use aigo.Base.Text.{trim_space}
use aigo.Errors.{Error, Outcome, ok, err}

-- `EngineConfig`, but for the HTTP client and its hooks. A nil `Metadata` reads as the empty map, and
-- `poll_interval` is in nanoseconds.
pub record EngineConfig : Type 0 where
  pub name : String
  pub provider : String
  pub model : String
  pub quality : String
  pub style : String
  pub api_key : String
  pub base_url : String
  pub enabled : Option Bool
  pub metadata : Map String
  pub background : String
  pub output_format : String
  pub moderation : String
  pub output_compression : ℤ
  pub capability : String
  pub wait_for_completion : Option Bool
  pub poll_interval : ℤ

-- `WaitForCompletionOr`
unfoldable pub wait_for_completion_or : EngineConfig → Bool → Bool
wait_for_completion_or c def = elim c.wait_for_completion [ none ↦ def | some b ↦ b ]

non_empty_or : Option String → String → String
non_empty_or none fallback = fallback
non_empty_or (some v) fallback = if str_eq v "" then fallback else v

-- `Meta`
unfoldable pub meta : EngineConfig → String → String → String
unfolding non_empty_or
meta c key fallback = non_empty_or (get c.metadata key) fallback

first_meta : EngineConfig → String → List String → String
unfolding meta
first_meta c fallback [] = fallback
first_meta c fallback (key ∷ keys) =
    let rest = first_meta c fallback keys in
    let v = trim_space (meta c key "") in if str_eq v "" then rest else v

-- `MetaAny`
unfoldable pub meta_any : EngineConfig → String → List String → String
unfolding first_meta
meta_any c fallback keys =
    if not (str_eq (trim_space fallback) "") then fallback else first_meta c fallback keys

int_or_rest : Option ℤ → ℤ → ℤ
int_or_rest none rest = rest
int_or_rest (some v) rest = v

first_int : EngineConfig → ℤ → List String → ℤ
unfolding meta int_or_rest
first_int c fallback [] = fallback
first_int c fallback (key ∷ keys) =
    let rest = first_int c fallback keys in
    let raw = trim_space (meta c key "") in
    if str_eq raw "" then rest else int_or_rest (atoi raw) rest

is_zero_int : ℤ → Bool
is_zero_int (pos n) = n == 0
is_zero_int (negsuc n) = false

-- `MetaIntAny`
unfoldable pub meta_int_any : EngineConfig → ℤ → List String → ℤ
unfolding first_int is_zero_int
meta_int_any c fallback keys =
    if not (is_zero_int fallback) then fallback else first_int c fallback keys

-- `IsEnabled`
unfoldable pub is_enabled : EngineConfig → Bool
is_enabled c = elim c.enabled [ none ↦ true | some b ↦ b ]

-- The registered factories. `F` is the type of a factory.
module _ {ℓ} {F : Type ℓ} where
  -- `RegisterFactory`
  unfoldable pub register_factory : Map F → String → F → Map F
  register_factory factories provider f = put factories provider f

  -- `GetFactory`
  unfoldable pub get_factory : Map F → String → Option F
  get_factory factories provider = get factories provider

  -- `RegisteredFactories`, in the order of the map.
  unfoldable pub registered_factories : Map F → List String
  registered_factories factories = keys factories

-- `os.Getenv`: an unset variable reads as the empty text.
abbrev pub Getenv : Type 0
Getenv = String → String

-- The loop of `ResolveKey`.
first_set : Getenv → List String → Option String
first_set getenv [] = none
first_set getenv (ev ∷ evs) =
    let rest = first_set getenv evs in
    let k = trim_space (getenv ev) in if str_eq k "" then rest else some k

abbrev pub missing_key : List String → Error
missing_key [] = Error.plain "missing API key"
missing_key (ev ∷ evs) =
    Error.plain ("missing API key (set config or env " <> join " / " (ev ∷ evs) <> ")")

found_key : Option String → List String → Outcome String
found_key none evs = err (missing_key evs)
found_key (some k) evs = ok k

-- `ResolveKey`
unfoldable pub resolve_key : Getenv → String → List String → Outcome String
unfolding first_set found_key
resolve_key getenv explicit evs =
    let k = trim_space explicit in
    if not (str_eq k "") then ok k else found_key (first_set getenv evs) evs

second_key : String → Outcome String → Outcome (String × String)
second_key a (err e) = err (Error.wrap "secret key" e)
second_key a (ok s) = ok (a, s)

key_pair : Outcome String → Outcome String → Outcome (String × String)
unfolding second_key
key_pair (err e) secret = err (Error.wrap "access key" e)
key_pair (ok a) secret = second_key a secret

-- `ResolveKeyPair`
unfoldable pub resolve_key_pair :
    Getenv → String → String → List String → List String → Outcome (String × String)
unfolding key_pair
resolve_key_pair getenv ak sk ak_envs sk_envs =
    key_pair (resolve_key getenv ak ak_envs) (resolve_key getenv sk sk_envs)
