-- ===== src/Uri/Parse.antt =====
-- engine/uri.go: `ParseURI` and what is built on it. The texts of the errors are written without the
-- quotes of `%q`.
pub mod Keys
pub mod Names
use aigo.Base.{
  ℕ, suc, ◌+◌, String, Bool, true, false, not, ◌&&◌, ◌||◌, Option, none, some, List, [], ◌∷◌,
  some_of, ltb, str_eq, if◌then◌else◌,
}
use aigo.Base.Assoc.{Map, get, has, put}
use aigo.Base.Cut.{cut, cut_last, cut_text, split, join, trim_prefix}
use aigo.Base.Decimal.{itoa}
use aigo.Base.Int.{ℤ, pos, negsuc}
use aigo.Base.Number.{atoi}
use aigo.Base.Scan.{◌<>◌}
use aigo.Base.Text.{trim_space}
use aigo.Config.{EngineConfig, Getenv, get_factory, registered_factories}
use aigo.Errors.{Error, Outcome, ok, err, ◌>>=◌}
use aigo.Uri.{ToLower, redact_uri, is_local_host, sanitize_name, before}

-- `url.Values`
abbrev pub Params : Type 0
Params = Map (List String)

-- `strings.ToLower`, `url.ParseQuery` and `time.ParseDuration`, the registered factories and the
-- aliases of schemes.
pub record UriEnv (E : Type 0) : Type 0 where
  pub to_lower : ToLower
  pub parse_query : String → Outcome Params
  pub parse_duration : String → Option ℤ
  pub factories : Map (EngineConfig → Outcome E)
  pub aliases : Map String

abbrev pub no_config : EngineConfig
no_config = record {
  name = "";
  provider = "";
  model = "";
  quality = "";
  style = "";
  api_key = "";
  base_url = "";
  enabled = none;
  metadata = [];
  background = "";
  output_format = "";
  moderation = "";
  output_compression = pos 0;
  capability = "";
  wait_for_completion = none;
  poll_interval = pos 0;
}

-- `RegisterSchemeAlias`
unfoldable pub register_scheme_alias : ToLower → Map String → String → String → Map String
register_scheme_alias to_lower aliases alias provider =
    put aliases (to_lower alias) (to_lower provider)

split_key : EngineConfig → String → Option (String × String) → EngineConfig
split_key c user none = record c { api_key = user }
split_key c user (some (a, secret)) = record c {
  api_key = a;
  metadata = if str_eq secret "" then c.metadata else put c.metadata "secretKey" secret;
}

-- The key before the first colon, and the secret after it.
unfoldable pub set_key : EngineConfig → String → EngineConfig
unfolding split_key
set_key c user = split_key c user (cut 58 user)

-- `cfg.BaseURL`
unfoldable pub set_host : EngineConfig → String → EngineConfig
set_host c host =
    if str_eq host ""
    then c
    else record c { base_url = (if is_local_host host then "http" else "https") <> "://" <> host }

set_user : EngineConfig → String → Option (String × String) → EngineConfig
unfolding set_key set_host
set_user c rest none = set_key c rest
set_user c rest (some (user, host)) = set_host (set_key c user) host

-- `params.Get(k)`
unfoldable pub param : Params → String → String
param ps k = elim (get ps k) [ none ↦ "" | some [] ↦ "" | some (v ∷ vs) ↦ v ]

text_or : String → String → String
text_or v old = if str_eq v "" then old else v

number_or : Option ℤ → ℤ → ℤ
number_or none old = old
number_or (some n) old = n

flag_or : String → Option Bool → Option Bool
flag_or v old =
    if str_eq v "" then old else some (str_eq v "true" || str_eq v "1" || str_eq v "yes")

-- `knownParams`
abbrev pub known_params : List String
known_params =
    "base_url" ∷ "model" ∷ "quality" ∷ "style" ∷ "background" ∷ "output_format" ∷ "moderation"
    ∷ "output_compression" ∷ "name" ∷ "wait" ∷ "poll_interval" ∷ "capability" ∷ "scheme" ∷ []

-- The loop over the remaining parameters.
other_params : Map String → Params → Map String
other_params meta [] = meta
other_params meta ((k, []) ∷ ps) = other_params meta ps
other_params meta ((k, v ∷ vs) ∷ ps) =
    other_params (if some_of (str_eq k) known_params then meta else put meta k v) ps

-- `applyParams`
unfoldable pub apply_params : (String → Option ℤ) → EngineConfig → Params → EngineConfig
unfolding text_or number_or flag_or other_params
apply_params parse_duration c ps = record c {
  base_url = text_or (param ps "base_url") c.base_url;
  model = text_or (param ps "model") c.model;
  quality = text_or (param ps "quality") c.quality;
  style = text_or (param ps "style") c.style;
  background = text_or (param ps "background") c.background;
  output_format = text_or (param ps "output_format") c.output_format;
  moderation = text_or (param ps "moderation") c.moderation;
  output_compression =
      let n = number_or (atoi (param ps "output_compression")) c.output_compression in
      if str_eq (param ps "output_compression") "" then c.output_compression else n;
  name = text_or (param ps "name") c.name;
  wait_for_completion = flag_or (param ps "wait") c.wait_for_completion;
  poll_interval =
      let d = number_or (parse_duration (param ps "poll_interval")) c.poll_interval in
      if str_eq (param ps "poll_interval") "" then c.poll_interval else d;
  capability = text_or (param ps "capability") c.capability;
  metadata = other_params c.metadata ps;
}

-- The `scheme` parameter replaces the protocol of the base URL.
unfoldable pub override_scheme : EngineConfig → String → EngineConfig
override_scheme c s =
    if (str_eq s "http" || str_eq s "https") && not (str_eq c.base_url "")
    then record c {
      base_url = s <> "://" <> trim_prefix (trim_prefix c.base_url "https://") "http://";
    }
    else c

query_text : Option (String × String) → String
query_text none = ""
query_text (some (a, q)) = q

-- The name that is made of the provider and the model.
unfoldable pub set_name : ToLower → EngineConfig → EngineConfig
set_name to_lower c = record c {
  name =
      if not (str_eq c.name "")
      then c.name
      else if not (str_eq c.model "")
      then c.provider <> "-" <> sanitize_name to_lower c.model
      else c.provider;
}

abbrev pub missing_api_key : String → String → Error
missing_api_key scheme raw =
    Error.plain ("engine: " <> scheme <> " URI missing API key (in " <> redact_uri raw <> ")")

query_failed : {A : Type 0} → String → Outcome A → Outcome A
query_failed raw (err e) = err (Error.wrap ("engine: parse query params in " <> redact_uri raw) e)
query_failed raw (ok a) = ok a

canonical : String → Option String → String
canonical scheme none = scheme
canonical scheme (some p) = p

module _ {E : Type 0} (env : UriEnv E) where
  open env use {to_lower, parse_query, parse_duration, factories, aliases}

  -- `resolveScheme`
  unfoldable pub resolve_scheme : String → String
  unfolding canonical
  resolve_scheme scheme =
      if has factories scheme then scheme else canonical scheme (get aliases scheme)

  with_params : EngineConfig → Params → EngineConfig
  unfolding apply_params override_scheme
  with_params c ps = apply_params parse_duration (override_scheme c (param ps "scheme")) ps

  -- The query parameters, if there are any.
  with_query : String → EngineConfig → String → Outcome EngineConfig
  unfolding with_params query_failed
  with_query raw c query =
      let found = query_failed raw (parse_query query) >>= λ ps. ok (with_params c ps) in
      if str_eq query "" then ok c else found

  with_name : EngineConfig → Outcome EngineConfig
  unfolding set_name
  with_name c = ok (set_name to_lower c)

  -- The configuration before the query is read.
  unfoldable pub keyed : String → String → EngineConfig
  unfolding set_user before
  keyed scheme rest =
      let user = before rest (cut 63 rest) in
      set_user (record no_config { provider = resolve_scheme (to_lower scheme) }) user
        (cut_last 64 user)

  unfoldable pub parse_rest : String → String → String → Outcome EngineConfig
  unfolding with_query with_name query_text
  parse_rest raw scheme rest =
      let found = with_query raw (keyed scheme rest) (query_text (cut 63 rest)) >>= with_name in
      if str_eq (keyed scheme rest).api_key ""
      then err (missing_api_key (to_lower scheme) raw)
      else found

  parse_trimmed : String → Option (String × String) → Outcome EngineConfig
  unfolding parse_rest
  parse_trimmed raw none = err (Error.plain ("engine: invalid URI (no scheme): " <> redact_uri raw))
  parse_trimmed raw (some (scheme, rest)) = parse_rest raw scheme rest

  -- `ParseURI`
  unfoldable pub parse_uri : String → Outcome EngineConfig
  unfolding parse_trimmed
  parse_uri raw =
      let s = trim_space raw in
      if str_eq s ""
      then err (Error.plain "engine: empty URI")
      else parse_trimmed s (cut_text "://" s)

  -- `nameCount[name]`
  count_of : Map ℕ → String → ℕ
  count_of counts name = elim (get counts name) [ none ↦ 0 | some n ↦ n ]

  -- The name with the suffix of a repeated one.
  numbered : Map ℕ → EngineConfig → EngineConfig
  unfolding count_of
  numbered counts c =
      let n = suc (count_of counts c.name) in
      if ltb 1 n then record c { name = c.name <> "-" <> itoa n } else c

  counted : Map ℕ → EngineConfig → Map ℕ
  unfolding count_of
  counted counts c = put counts c.name (suc (count_of counts c.name))

  -- The loop of `ParseURIs`.
  unfoldable pub parse_parts : Map ℕ → List String → Outcome (List EngineConfig)
  unfolding parse_uri numbered counted
  parse_parts counts [] = ok []
  parse_parts counts (part ∷ parts) =
      let rest = parse_uri (trim_space part) >>= λ c.
      parse_parts (counted counts c) parts >>= λ cs. ok (numbered counts c ∷ cs) in
      let skipped = parse_parts counts parts in
      if str_eq (trim_space part) "" then skipped else rest

  unless_none : List EngineConfig → Outcome (List EngineConfig)
  unless_none [] = err (Error.plain "engine: no valid URIs found")
  unless_none (c ∷ cs) = ok (c ∷ cs)

  -- `ParseURIs`
  unfoldable pub parse_uris : String → Outcome (List EngineConfig)
  unfolding parse_parts unless_none
  parse_uris raw =
      let s = trim_space raw in
      let found = parse_parts [] (split 44 s) >>= unless_none in
      if str_eq s "" then err (Error.plain "engine: empty URI list") else found

  no_factory : String → EngineConfig → Error
  no_factory raw c = Error.plain (
      "engine: no factory registered for provider "
      <> c.provider
      <> " (resolved from "
      <> redact_uri raw
      <> "); available: ["
      <> join " " (registered_factories factories)
      <> "]")

  -- `ParseAndValidateURI`. The configuration that Go returns beside an error is left out.
  unfoldable pub parse_and_validate_uri : String → Outcome EngineConfig
  unfolding no_factory
  parse_and_validate_uri raw =
      parse_uri raw >>= λ c. if has factories c.provider then ok c else err (no_factory raw c)

  -- The factory is there: the URI was validated.
  made_by : Option (EngineConfig → Outcome E) → EngineConfig → Outcome E
  made_by none c = err (Error.plain "nil factory")
  made_by (some f) c = f c

  -- `NewFromURI`
  unfoldable pub new_from_uri : String → Outcome E
  unfolding made_by
  new_from_uri uri =
      parse_and_validate_uri uri >>= λ c. made_by (get_factory factories c.provider) c

  -- `NewFromEnv`
  unfoldable pub new_from_env : Getenv → Outcome (List EngineConfig)
  new_from_env getenv =
      let found = parse_uris (getenv "ENGINE_URIS") in
      if str_eq (getenv "ENGINE_URIS") "" then ok [] else found
