-- ===== src/Uri.antt =====
-- engine/uri.go: engine URIs are parsed into configurations, printed, and shown without their keys.
pub mod Redact
pub mod Local
pub mod Parse
pub mod Print
use Prim.Native.Char.{Char, char, nul, code}
use Prim.Native.Nat.{compare, Ordering}
use aigo.Base.{
  ℕ, ◌+◌, ◌-◌, ◌/◌, ◌%◌, ◌≡◌, refl, take, String, Bool, true, false, not, ◌&&◌, ◌||◌, Option, none,
  some, List, [], ◌∷◌, map, some_of, leb, ltb, ◌==◌, str_eq, if◌then◌else◌,
}
use aigo.Base.Cut.{cut, cut_last, cut_text, split, join, trim_prefix}
use aigo.Base.Scan.{◌<>◌}
use aigo.Base.Text.{trim_space}

-- The bytes of a code point in UTF-8.
utf8_size : ℕ → ℕ
utf8_size c = if ltb c 0x80 then 1 else if ltb c 0x800 then 2 else if ltb c 0x10000 then 3 else 4

-- `len(s)`
unfoldable pub byte_length : String → ℕ
unfolding utf8_size
byte_length String.[] = 0
byte_length (String.◌∷◌ c s) = utf8_size (code c) + byte_length s

-- The bytes of a code point, first to last.
utf8 : ℕ → List ℕ
utf8 c =
    if ltb c 0x80
    then c ∷ []
    else if ltb c 0x800
    then (0xC0 + c / 64) ∷ (0x80 + c % 64) ∷ []
    else if ltb c 0x10000
    then (0xE0 + c / 4096) ∷ (0x80 + (c / 64) % 64) ∷ (0x80 + c % 64) ∷ []
    else (0xF0 + c / 262144)
      ∷ (0x80 + (c / 4096) % 64)
      ∷ (0x80 + (c / 64) % 64)
      ∷ (0x80 + c % 64)
      ∷ []

-- The character of a number below 0xD800.
char_below : (n : ℕ) (o : Ordering) → compare n 55296 ≡ o → Char
char_below n Ordering.lt e = char n (rw e tt)
char_below n Ordering.eq e = nul
char_below n Ordering.gt e = nul

-- Bytes that are no code point together, each written as the code point of its number.
loose_bytes : List ℕ → String
unfolding char_below
loose_bytes [] = ""
loose_bytes (b ∷ bs) = String.◌∷◌ (char_below b (compare b 55296) refl) (loose_bytes bs)

-- `s[:n]`. Of a code point that the index cuts, the first bytes stay.
unfoldable pub take_bytes : ℕ → String → String
unfolding utf8_size utf8 loose_bytes
take_bytes n String.[] = ""
take_bytes n (String.◌∷◌ c s) =
    let rest = take_bytes (n - utf8_size (code c)) s in
    if leb (utf8_size (code c)) n then String.◌∷◌ c rest else loose_bytes (take n (utf8 (code c)))

-- `redactSingle`
unfoldable pub redact_single : String → String
unfolding byte_length take_bytes
redact_single s = if leb (byte_length s) 4 then "***" else take_bytes 3 s <> "***"

redact_parts : String → Option (String × String) → String
unfolding redact_single
redact_parts key none = redact_single key
redact_parts key (some (a, b)) = redact_single a <> ":" <> redact_single b

-- `redactKey`
unfoldable pub redact_key : String → String
unfolding redact_parts cut
redact_key key = redact_parts key (cut 58 key)

-- The part before the query, and the query with its mark.
before : String → Option (String × String) → String
before s none = s
before s (some (a, b)) = a

query_of : Option (String × String) → String
query_of none = ""
query_of (some (a, b)) = "?" <> b

-- What comes before the last `@` is redacted; without one, all of it.
redact_user : String → Option (String × String) → String
unfolding redact_key
redact_user rest none = redact_key rest
redact_user rest (some (user, host)) = redact_key user <> "@" <> host

redact_rest : String → Option (String × String) → String
unfolding before query_of redact_user
redact_rest rest q = redact_user (before rest q) (cut_last 64 (before rest q)) <> query_of q

redact_trimmed : String → Option (String × String) → String
unfolding redact_rest
redact_trimmed raw none = raw
redact_trimmed raw (some (scheme, rest)) = scheme <> "://" <> redact_rest rest (cut 63 rest)

-- `RedactURI`
unfoldable pub redact_uri : String → String
unfolding redact_trimmed
redact_uri raw = let s = trim_space raw in redact_trimmed s (cut_text "://" s)

-- `RedactURIs`
unfoldable pub redact_uris : String → String
unfolding redact_uri
redact_uris raw = join "," (map redact_uri (split 44 raw))

-- `isLocalHost`: up to the first slash, then up to the first colon.
unfoldable pub is_local_host : String → Bool
unfolding before
is_local_host host_path =
    let host = before host_path (cut 47 host_path) in
    let name = before host (cut 58 host) in
    str_eq name "localhost" || str_eq name "127.0.0.1" || str_eq name "[::1]"

-- `strings.ToLower`
abbrev pub ToLower : Type 0
ToLower = String → String

name_code : ℕ → Bool
name_code c = (leb 97 c && leb c 122) || (leb 48 c && leb c 57) || c == 45

-- The `strings.Map` of `sanitizeName`
name_chars : String → String
unfolding name_code
name_chars String.[] = ""
name_chars (String.◌∷◌ c s) =
    if name_code (code c) then String.◌∷◌ c (name_chars s) else "-" <> name_chars s

trim_left_dash : String → String
trim_left_dash String.[] = ""
trim_left_dash (String.◌∷◌ c s) =
    let rest = trim_left_dash s in if code c == 45 then rest else String.◌∷◌ c s

cons_unless_end : Char → String → String
cons_unless_end c String.[] = if code c == 45 then "" else String.◌∷◌ c ""
cons_unless_end c (String.◌∷◌ d s) = String.◌∷◌ c (String.◌∷◌ d s)

trim_right_dash : String → String
unfolding cons_unless_end
trim_right_dash String.[] = ""
trim_right_dash (String.◌∷◌ c s) = cons_unless_end c (trim_right_dash s)

-- `sanitizeName`
unfoldable pub sanitize_name : ToLower → String → String
unfolding name_chars trim_left_dash trim_right_dash
sanitize_name to_lower s = trim_right_dash (trim_left_dash (name_chars (to_lower s)))
