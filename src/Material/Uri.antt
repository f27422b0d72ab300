-- ===== src/Material/Uri.antt =====
-- material/parse.go and factory.go: the URIs of search backends, and the searchers that are made of them.
-- The texts of the errors are written without the quotes of `%q`.
pub mod Complete
use aigo.Base.{
  String, Bool, true, false, not, ◌&&◌, ◌||◌, Option, none, some, List, [], ◌∷◌, some_of, str_eq,
  if◌then◌else◌,
}
use aigo.Base.Assoc.{Map, get, put}
use aigo.Base.Cut.{cut, cut_last, cut_text, split, join}
use aigo.Base.Scan.{◌<>◌}
use aigo.Base.Text.{trim_space}
use aigo.Config.{Getenv}
use aigo.Errors.{Error, Outcome, ok, err, ◌>>=◌}
use aigo.Material.{Searcher}
use aigo.Uri.{ToLower}
use aigo.Uri.Parse.{Params, param}

-- `ParsedURI`. Nil parameters read as none.
pub record ParsedUri : Type 0 where
  pub scheme : String
  pub api_key : String
  pub secret : String
  pub bucket : String
  pub region : String
  pub mode : String
  pub security_token : String
  pub index_path : String
  pub embed_backend : String
  pub embed_key : String
  pub embed_model : String
  pub params : Params

abbrev with_scheme : String → ParsedUri
with_scheme scheme = record {
  scheme = scheme;
  api_key = "";
  secret = "";
  bucket = "";
  region = "";
  mode = "";
  security_token = "";
  index_path = "";
  embed_backend = "";
  embed_key = "";
  embed_model = "";
  params = [];
}

-- `url.ParseQuery`
abbrev pub ParseQuery : Type 0
ParseQuery = String → Outcome Params

text_or_default : String → String → String
text_or_default s def = if str_eq s "" then def else s

-- The part before the query, and the parameters if there is a query.
asked : String → ParseQuery → String → Option (String × String) → Outcome (String × Params)
asked what parse_query rest none = ok (rest, [])
asked what parse_query rest (some (a, q)) = elim (parse_query q) [
  | ok ps ↦ ok (a, ps)
  | err e ↦ err (Error.wrap what e)
]

simple_key : ParsedUri → String × Params → Outcome ParsedUri
simple_key p (rest, ps) =
    if str_eq (trim_space rest) ""
    then err (Error.plain ("search: " <> p.scheme <> " URI missing API key"))
    else ok (record p { api_key = trim_space rest; params = ps })

-- `parseSimpleKeyURI`
unfoldable pub parse_simple_key_uri : ParseQuery → ParsedUri → String → Outcome ParsedUri
unfolding asked simple_key
parse_simple_key_uri parse_query p rest =
    asked "search: parse query params" parse_query rest (cut 63 rest) >>= simple_key p

-- The last test of `parseOSSURI`, and the default mode.
complete_oss : ParsedUri → Outcome ParsedUri
unfolding text_or_default
complete_oss p =
    if str_eq p.api_key "" || str_eq p.secret "" || str_eq p.bucket "" || str_eq p.region ""
    then err (Error.plain "search: oss URI incomplete (need KEY_ID:KEY_SECRET@BUCKET.REGION)")
    else ok (record p { mode = text_or_default p.mode "semantic" })

oss_host : ParsedUri → Option (String × String) → Outcome ParsedUri
unfolding complete_oss
oss_host p none = err (Error.plain "search: oss URI missing region (expected BUCKET.REGION)")
oss_host p (some (bucket, region)) = complete_oss (record p { bucket = bucket; region = region })

oss_user : ParsedUri → String → Option (String × String) → Outcome ParsedUri
unfolding oss_host
oss_user p host none =
    err (Error.plain "search: oss URI missing secret (expected KEY_ID:KEY_SECRET)")
oss_user p host (some (key, secret)) =
    oss_host (record p { api_key = key; secret = secret }) (cut 46 host)

oss_credentials : ParsedUri → Option (String × String) → Outcome ParsedUri
unfolding oss_user
oss_credentials p none = err (Error.plain "search: oss URI missing credentials")
oss_credentials p (some (user, host)) = oss_user p host (cut 58 user)

oss_parts : ParsedUri → String × Params → Outcome ParsedUri
unfolding oss_credentials
oss_parts p (rest, ps) =
    oss_credentials
      (record p { params = ps; mode = param ps "mode"; security_token = param ps "token" })
      (cut_last 64 rest)

-- `parseOSSURI`
unfoldable pub parse_oss_uri : ParseQuery → ParsedUri → String → Outcome ParsedUri
unfolding asked oss_parts
parse_oss_uri parse_query p rest =
    asked "search: parse OSS query params" parse_query rest (cut 63 rest) >>= oss_parts p

local_parts : ParsedUri → String × Params → Outcome ParsedUri
unfolding text_or_default
local_parts p (rest, ps) = ok (record p {
  params = ps;
  embed_backend = text_or_default (param ps "embed") "dashscope";
  embed_key = param ps "embed_key";
  embed_model = param ps "embed_model";
  index_path = text_or_default rest ".aigo/search_index.json";
})

-- `parseLocalURI`
unfoldable pub parse_local_uri : ParseQuery → ParsedUri → String → Outcome ParsedUri
unfolding asked local_parts
parse_local_uri parse_query p rest =
    asked "search: parse local query params" parse_query rest (cut 63 rest) >>= local_parts p

-- The `switch` over the scheme.
parse_scheme : ParseQuery → String → String → Outcome ParsedUri
parse_scheme parse_query scheme rest =
    let simple = parse_simple_key_uri parse_query (with_scheme scheme) rest in
    let oss = parse_oss_uri parse_query (with_scheme scheme) rest in
    let local = parse_local_uri parse_query (with_scheme scheme) rest in
    if some_of (str_eq scheme) ("pexels" ∷ "unsplash" ∷ "pixabay" ∷ [])
    then simple
    else if str_eq scheme "oss"
    then oss
    else if str_eq scheme "local"
    then local
    else err (Error.plain ("search: unsupported scheme " <> scheme))

parse_parts_of : ToLower → ParseQuery → String → Option (String × String) → Outcome ParsedUri
unfolding parse_scheme
parse_parts_of to_lower parse_query raw none =
    err (Error.plain ("search: invalid URI (no scheme): " <> raw))
parse_parts_of to_lower parse_query raw (some (scheme, rest)) =
    parse_scheme parse_query (to_lower scheme) rest

-- `ParseURI` of package material
unfoldable pub parse_backend_uri : ToLower → ParseQuery → String → Outcome ParsedUri
unfolding parse_parts_of
parse_backend_uri to_lower parse_query raw =
    let s = trim_space raw in
    if str_eq s ""
    then err (Error.plain "search: empty URI")
    else parse_parts_of to_lower parse_query s (cut_text "://" s)

-- The loop of `ParseURIs`
parse_backends : ToLower → ParseQuery → List String → Outcome (List ParsedUri)
unfolding parse_backend_uri
parse_backends to_lower parse_query [] = ok []
parse_backends to_lower parse_query (part ∷ parts) =
    let rest = parse_backends to_lower parse_query parts in
    let all = parse_backend_uri to_lower parse_query (trim_space part) >>= λ p.
    rest >>= λ ps. ok (p ∷ ps) in
    if str_eq (trim_space part) "" then rest else all

unless_no_uri : List ParsedUri → Outcome (List ParsedUri)
unless_no_uri [] = err (Error.plain "search: no valid URIs found")
unless_no_uri (p ∷ ps) = ok (p ∷ ps)

-- `ParseURIs` of package material
unfoldable pub parse_backend_uris : ToLower → ParseQuery → String → Outcome (List ParsedUri)
unfolding parse_backends unless_no_uri
parse_backend_uris to_lower parse_query raw =
    let s = trim_space raw in
    let found = parse_backends to_lower parse_query (split 44 s) >>= unless_no_uri in
    if str_eq s "" then err (Error.plain "search: empty URI list") else found

-- `Constructor`
abbrev pub Constructor : Type 0
Constructor = ParsedUri → Outcome Searcher

-- `Register`
unfoldable pub register : Map Constructor → String → Constructor → Map Constructor
register registry scheme ctor = put registry scheme ctor

constructed : ParsedUri → Option Constructor → Outcome Searcher
constructed p none = err (Error.plain ("search: no registered constructor for scheme " <> p.scheme))
constructed p (some ctor) = ctor p

-- `buildSearcher`
unfoldable pub build_searcher : Map Constructor → ParsedUri → Outcome Searcher
unfolding constructed
build_searcher registry p = constructed p (get registry p.scheme)

-- The loop of `NewFromURIs`
build_all : Map Constructor → List ParsedUri → Outcome (List Searcher)
unfolding build_searcher
build_all registry [] = ok []
build_all registry (p ∷ ps) =
    let rest = build_all registry ps in
    build_searcher registry p >>= λ s. rest >>= λ ss. ok (s ∷ ss)

module _ (to_lower : ToLower) (parse_query : ParseQuery) (registry : Map Constructor) where
  -- `NewSearcher`
  unfoldable pub new_searcher : String → Outcome Searcher
  new_searcher uri = parse_backend_uri to_lower parse_query uri >>= build_searcher registry

  -- `NewFromURIs`: the backends of the `MultiSearcher`
  unfoldable pub new_from_uris : String → Outcome (List Searcher)
  unfolding build_all
  new_from_uris uris = parse_backend_uris to_lower parse_query uris >>= build_all registry

  set_values : Getenv → List String → List String
  set_values getenv [] = []
  set_values getenv (v ∷ vs) =
      let rest = set_values getenv vs in
      let value = trim_space (getenv v) in if str_eq value "" then rest else value ∷ rest

  from_parts : List String → Outcome (List Searcher)
  unfolding new_from_uris
  from_parts [] = err (Error.plain "material: no URI env vars configured")
  from_parts (p ∷ ps) = new_from_uris (join "," (p ∷ ps))

  -- `NewFromEnv` of package material
  unfoldable pub new_searchers_from_env : Getenv → Outcome (List Searcher)
  unfolding set_values from_parts
  new_searchers_from_env getenv =
      let combined = new_from_uris (getenv "MATERIAL_URIS") in
      let single = from_parts (
        set_values getenv (
          "PEXELS_URI" ∷ "UNSPLASH_URI" ∷ "PIXABAY_URI" ∷ "OSS_META_URI" ∷ "LOCAL_MATERIAL_URI"
          ∷ [])) in
      if str_eq (getenv "MATERIAL_URIS") "" then single else combined
