-- ===== src/Uri/Print.antt =====
-- engine/uri.go: `ToURI` writes a configuration as a URI.
pub mod Back
use aigo.Base.{
  ℕ, String, Bool, true, false, not, ◌&&◌, ◌||◌, Option, none, some, List, [], ◌∷◌, str_eq,
  if◌then◌else◌,
}
use aigo.Base.Assoc.{Map, get, put}
use aigo.Base.Cut.{after_prefix, trim_prefix}
use aigo.Base.Decimal.{itoa}
use aigo.Base.Int.{ℤ, pos, negsuc, is_pos}
use aigo.Base.Scan.{◌<>◌}
use aigo.Config.{EngineConfig}
use aigo.Size.{print_int}
use aigo.Uri.{ToLower, is_local_host, sanitize_name}

-- `Values.Encode` of one value for each key, and `Duration.String`.
pub record Printers : Type 0 where
  pub to_lower : ToLower
  pub encode : Map String → String
  pub print_duration : ℤ → String

-- `params.Set(k, v)` if the value is not empty.
set_param : String → String → Map String → Map String
set_param k v ps = if str_eq v "" then ps else put ps k v

set_int : String → (ℤ → String) → ℤ → Map String → Map String
set_int k print n ps = if is_pos n then put ps k (print n) else ps

set_wait : Option Bool → Map String → Map String
set_wait none ps = ps
set_wait (some b) ps = put ps "wait" (if b then "true" else "false")

set_others : Map String → Map String → Map String
set_others [] ps = ps
set_others ((k, v) ∷ ms) ps = set_others ms (if str_eq k "secretKey" then ps else put ps k v)

-- A name that is not the one that `ParseURI` would make.
own_name : ToLower → EngineConfig → Bool
own_name to_lower c =
    not (str_eq c.name "")
    && not (str_eq c.name c.provider)
    && not (str_eq c.name (c.provider <> "-" <> sanitize_name to_lower c.model))

is_some : Option String → Bool
is_some none = false
is_some (some s) = true

-- A base URL that `ParseURI` would not read as HTTP by itself.
plain_http : String → Bool
unfolding is_some
plain_http url =
    is_some (after_prefix "http://" url) && not (is_local_host (trim_prefix url "http://"))

-- The query parameters.
unfoldable pub params_of : Printers → EngineConfig → Map String
unfolding set_param set_int set_wait set_others own_name plain_http
params_of printers c =
    let texts = set_param "moderation" c.moderation (
      set_param "output_format" c.output_format (
        set_param "background" c.background (
          set_param "style" c.style
            (set_param "quality" c.quality (set_param "model" c.model []))))) in
    let sized = set_int "output_compression" print_int c.output_compression texts in
    let named = if own_name printers.to_lower c then put sized "name" c.name else sized in
    let timed =
      set_int "poll_interval" printers.print_duration c.poll_interval
        (set_wait c.wait_for_completion named) in
    let able = set_param "capability" c.capability timed in
    set_others c.metadata (if plain_http c.base_url then put able "scheme" "http" else able)

secret_of : Option String → String
secret_of none = ""
secret_of (some s) = if str_eq s "" then "" else ":" <> s

host_of : String → String
host_of url =
    if str_eq url "" then "" else "@" <> trim_prefix (trim_prefix url "https://") "http://"

query_end : (Map String → String) → Map String → String
query_end encode [] = ""
query_end encode (p ∷ ps) = "?" <> encode (p ∷ ps)

-- `ToURI`
unfoldable pub to_uri : Printers → EngineConfig → String
unfolding params_of secret_of host_of query_end
to_uri printers c =
    c.provider
    <> "://"
    <> ((c.api_key <> secret_of (get c.metadata "secretKey") <> host_of c.base_url)
        <> query_end printers.encode (params_of printers c))
