-- ===== src/Tests/Uris.antt =====
-- URIs of engines at concrete texts.
use aigo.Base.{
  ℕ, String, false, none, some, Option, List, [], ◌∷◌, map, ◌≡◌, refl, inr, str_eq, if◌then◌else◌,
}
use aigo.Base.Assoc.{get, has, put}
use aigo.Base.Cut.{cut, cut_last, cut_text, split, trim_prefix, after_prefix}
use aigo.Base.Decimal.{itoa}
use aigo.Base.Int.{pos}
use aigo.Base.Text.{trim_space, is_space, is_blank}
use aigo.Config.{EngineConfig, resolve_key}
use aigo.Errors.{Outcome, ok, err}
use aigo.Uri.{is_local_host, redact_uri, redact_single, byte_length, take_bytes, sanitize_name}
use aigo.Uri.Local
use aigo.Uri.Redact
use aigo.Uri.Redact.{full_uri}
use aigo.Uri.Parse.{
  UriEnv, parse_uri, parse_uris, parse_parts, parse_rest, keyed, set_key, set_host, resolve_scheme,
  apply_params, param, override_scheme, set_name,
}
use aigo.Uri.Parse.Keys as ParseKeys
use aigo.Uri.Parse.Keys.{FromUri}
use aigo.Uri.Parse.Names
use aigo.Uri.Parse.Names.{Parsed}
use aigo.Uri.Print.{Printers, to_uri}
use aigo.Uri.Print.Back
use aigo.Uri.Print.Back.{account}

program : Unit {0}
unfolding cut cut_last cut_text split trim_prefix after_prefix get has put itoa trim_space is_space
    is_blank is_local_host redact_uri redact_single byte_length take_bytes sanitize_name parse_uri
    parse_uris parse_parts parse_rest keyed set_key set_host resolve_scheme apply_params param
    override_scheme set_name resolve_key
program = tt

-- One parameter, `model`, and no factory.
abbrev uris : UriEnv ℕ
uris = record {
  to_lower = λ s. s;
  parse_query = λ q. ok (("model", trim_prefix q "model=" ∷ []) ∷ []);
  parse_duration = λ s. none;
  factories = [];
  aliases = ("dashscope", "alibabacloud") ∷ [];
}

abbrev names_of : Outcome (List EngineConfig) → List String
names_of (ok cs) = map (λ (c : EngineConfig). c.name) cs
names_of (err e) = []

redact_uri_runs :
    (redact_uri "dashscope://sk-abc123@host/path" ≡ "dashscope://sk-***@host/path")
    × (redact_uri "kling://ak:secret?x=1" ≡ "kling://***:sec***?x=1")
    × (redact_uri "sk-abc123" ≡ "sk-abc123")
unfolding program
redact_uri_runs = (refl, refl, refl)

-- Numbered names may meet a name that has a number of its own.
parse_uris_runs :
    (names_of (parse_uris uris "dashscope://k?model=a, dashscope://k?model=a,")
      ≡ "alibabacloud-a" ∷ "alibabacloud-a-2" ∷ [])
    × (names_of (parse_uris uris "x://k?model=a,x://k?model=a,x://k?model=a-2")
        ≡ "x-a" ∷ "x-a-2" ∷ "x-a-2" ∷ [])
unfolding program
parse_uris_runs = (refl, refl)

is_local_host-ipv6_example : is_local_host "[::1]:8080/v1" ≡ false
is_local_host-ipv6_example = Local.is_local_host-ipv6 ":8080/v1"

abbrev fal_host : String
fal_host = "fal.run/v1"

abbrev query : Option String
query = some "model=flux"

redact_uri-hides_example :
    redact_uri (full_uri "fal" "key-one" fal_host query)
    ≡ redact_uri (full_uri "fal" "key-another" fal_host query)
unfolding program
redact_uri-hides_example =
    Redact.redact_uri-hides "fal" fal_host query "key-one" "key-another" refl refl refl
      (record { no_colon = refl; no_question = refl; trimmed = refl })
      (record { no_colon = refl; no_question = refl; trimmed = refl }) refl (inr refl)

abbrev parsed_qwen : EngineConfig
parsed_qwen = record (account "alibabacloud" "ak" "sk" "host/v1") {
  model = "qwen";
  name = "alibabacloud-qwen";
}

parse_uri-FromUri_example : FromUri uris "dashscope://ak:sk@host/v1?model=qwen" parsed_qwen
unfolding program
parse_uri-FromUri_example =
    ParseKeys.parse_uri-FromUri uris "dashscope://ak:sk@host/v1?model=qwen" parsed_qwen refl

abbrev keyed_x : String → EngineConfig
keyed_x n = record {
  name = n;
  provider = "x";
  model = "";
  quality = "";
  style = "";
  api_key = "k";
  base_url = "";
  enabled = none;
  metadata = [];
  background = "";
  output_format = "";
  moderation = "";
  output_compression = pos 0;
  capability = "";
  wait_for_completion = none;
  poll_interval = pos 0;
}

parse_uris-Parsed_example :
    Parsed uris ("x://k" ∷ "" ∷ " x://k" ∷ []) (keyed_x "x" ∷ keyed_x "x-2" ∷ [])
unfolding program
parse_uris-Parsed_example =
    Names.parse_uris-Parsed uris "x://k,, x://k" (keyed_x "x" ∷ keyed_x "x-2" ∷ []) refl

abbrev printers : Printers
printers = record { to_lower = λ s. s; encode = λ ps. ""; print_duration = λ d. "" }

parse_uri-to_uri_example :
    parse_uri uris (to_uri printers (account "kling" "ak" "sk" "api.klingai.com/v1"))
    ≡ ok (account "kling" "ak" "sk" "api.klingai.com/v1")
unfolding program
parse_uri-to_uri_example =
    Back.parse_uri-to_uri uris "kling" "ak" "sk" "api.klingai.com/v1"
      (record {
        lower = refl;
        resolved = refl;
        no_colon = refl;
        key_plain = (refl, refl);
        has_key = refl;
        secret_plain = refl;
        has_secret = refl;
        host_plain = (refl, refl);
        has_host = refl;
        remote = refl;
        no_protocol = refl;
        trimmed = refl;
      })
      printers

abbrev environment : String → String
environment name = if str_eq name "FAL_KEY" then " secret " else ""

-- The euro sign begins with the byte 0xE2, which is the number of "â".
cut_in_a_code_point : take_bytes 3 "ab€" ≡ "abâ"
unfolding program
cut_in_a_code_point = refl
