-- ===== src/Material/Uri/Complete.antt =====
-- material/parse.go: a parsed URI has what its backend needs.
use aigo.Base.{
  String, Bool, true, false, ◌≡◌, refl, ◌||◌, Option, none, some, [], ◌∷◌, some_of, str_eq,
  Bool-cases, inl, inr, if◌then◌else◌, arith, subst,
}
use aigo.Base.Cut.{cut, cut_last, cut_text}
use aigo.Base.Text.{trim_space}
use aigo.Errors.{Error, Outcome, ok, err, ◌>>=◌}
use aigo.Uri.{ToLower}
use aigo.Uri.Parse.{Params, param}
use aigo.Material.Uri.{
  ParsedUri, ParseQuery, simple_key, parse_simple_key_uri, complete_oss, oss_host, oss_user,
  oss_credentials, oss_parts, parse_oss_uri, local_parts, parse_local_uri, parse_scheme,
  parse_parts_of, parse_backend_uri, text_or_default, with_scheme,
}

abbrev pub IsGiven : String → Type 0
IsGiven s = str_eq s "" ≡ false

-- What the backends need: a key, the four parts of an OSS bucket and a mode, or an index and an
-- embedding backend.
pub data IsComplete (p : ParsedUri) : Type 0 where
  simple_uri :
      some_of (str_eq p.scheme) ("pexels" ∷ "unsplash" ∷ "pixabay" ∷ []) ≡ true
      → IsGiven p.api_key
      → IsComplete p
  oss_uri :
      str_eq p.scheme "oss" ≡ true
      → IsGiven p.api_key
      → IsGiven p.secret
      → IsGiven p.bucket
      → IsGiven p.region
      → IsGiven p.mode
      → IsComplete p
  local_uri :
      str_eq p.scheme "local" ≡ true → IsGiven p.index_path → IsGiven p.embed_backend → IsComplete p

-- A property of the value, if there is one.
data Gives {A : Type 0} (P : A → Type 0) : Outcome A → Type 0 where
  gives : (a : A) → P a → Gives P (ok a)
  fails : (e : Error) → Gives P (err e)

bind-Gives :
    {A B : Type 0} (P : B → Type 0) (o : Outcome A) (f : A → Outcome B)
    → ((a : A) → Gives P (f a))
    → Gives P (o >>= f)
bind-Gives P (ok a) f h = h a
bind-Gives P (err e) f h = Gives.fails e

if-Gives :
    {A : Type 0} (P : A → Type 0) (b : Bool) (e : Error) (o : Outcome A)
    → (b ≡ false → Gives P o)
    → Gives P (if b then err e else o)
if-Gives P true e o h = Gives.fails e
if-Gives P false e o h = h refl

text_or_default-IsGiven : (s def : String) → IsGiven def → IsGiven (text_or_default s def)
unfolding text_or_default
text_or_default-IsGiven s def h = elim (Bool-cases (str_eq s "")) [
  | inl e ↦ rw e h
  | inr e ↦ rw e e
]

simple_key-IsComplete :
    (p : ParsedUri) (x : String × Params)
    → some_of (str_eq p.scheme) ("pexels" ∷ "unsplash" ∷ "pixabay" ∷ []) ≡ true
    → Gives IsComplete (simple_key p x)
unfolding simple_key
simple_key-IsComplete p (rest, ps) h =
    if-Gives IsComplete (str_eq (trim_space rest) "") _ _
      (λ e. Gives.gives _ (IsComplete.simple_uri h e))

none_true :
    (a b c d : Bool)
    → (a || b || c || d) ≡ false
    → (a ≡ false) × (b ≡ false) × (c ≡ false) × (d ≡ false)
none_true a b c d h = ground arith

complete_oss-IsComplete :
    (p : ParsedUri) → str_eq p.scheme "oss" ≡ true → Gives IsComplete (complete_oss p)
unfolding complete_oss
complete_oss-IsComplete p h =
    elim (Bool-cases
      (str_eq p.api_key "" || str_eq p.secret "" || str_eq p.bucket "" || str_eq p.region "")) [
        | inl e ↦ rw e (Gives.fails _)
        | inr e ↦
            let parts = none_true _ _ _ _ e in
            rw e (
              Gives.gives _ (
                IsComplete.oss_uri h parts.0 parts.1 parts.2 parts.3
                  (text_or_default-IsGiven p.mode "semantic" refl)))
      ]

oss_host-IsComplete :
    (p : ParsedUri) (o : Option (String × String))
    → str_eq p.scheme "oss" ≡ true
    → Gives IsComplete (oss_host p o)
unfolding oss_host
oss_host-IsComplete p none h = Gives.fails _
oss_host-IsComplete p (some (bucket, region)) h =
    complete_oss-IsComplete (record p { bucket = bucket; region = region }) h

oss_user-IsComplete :
    (p : ParsedUri) (host : String) (o : Option (String × String))
    → str_eq p.scheme "oss" ≡ true
    → Gives IsComplete (oss_user p host o)
unfolding oss_user
oss_user-IsComplete p host none h = Gives.fails _
oss_user-IsComplete p host (some (key, secret)) h =
    oss_host-IsComplete (record p { api_key = key; secret = secret }) (cut 46 host) h

oss_credentials-IsComplete :
    (p : ParsedUri) (o : Option (String × String))
    → str_eq p.scheme "oss" ≡ true
    → Gives IsComplete (oss_credentials p o)
unfolding oss_credentials
oss_credentials-IsComplete p none h = Gives.fails _
oss_credentials-IsComplete p (some (user, host)) h = oss_user-IsComplete p host (cut 58 user) h

oss_parts-IsComplete :
    (p : ParsedUri) (x : String × Params)
    → str_eq p.scheme "oss" ≡ true
    → Gives IsComplete (oss_parts p x)
unfolding oss_parts
oss_parts-IsComplete p (rest, ps) h =
    oss_credentials-IsComplete
      (record p { params = ps; mode = param ps "mode"; security_token = param ps "token" })
      (cut_last 64 rest) h

local_parts-IsComplete :
    (p : ParsedUri) (x : String × Params)
    → str_eq p.scheme "local" ≡ true
    → Gives IsComplete (local_parts p x)
unfolding local_parts
local_parts-IsComplete p (rest, ps) h = Gives.gives _ (
    IsComplete.local_uri h (text_or_default-IsGiven rest ".aigo/search_index.json" refl)
      (text_or_default-IsGiven (param ps "embed") "dashscope" refl))

module _ (to_lower : ToLower) (parse_query : ParseQuery) where
  parse_scheme-IsComplete :
      (scheme rest : String) → Gives IsComplete (parse_scheme parse_query scheme rest)
  unfolding parse_scheme parse_simple_key_uri parse_oss_uri parse_local_uri
  parse_scheme-IsComplete scheme rest =
      elim (Bool-cases (some_of (str_eq scheme) ("pexels" ∷ "unsplash" ∷ "pixabay" ∷ []))) [
        | inl e ↦
            rw e (bind-Gives IsComplete _ _ (λ x. simple_key-IsComplete (with_scheme scheme) x e))
        | inr e ↦ elim (Bool-cases (str_eq scheme "oss")) [
          | inl oss ↦
              rw (e, oss)
                (bind-Gives IsComplete _ _ (λ x. oss_parts-IsComplete (with_scheme scheme) x oss))
          | inr other ↦ elim (Bool-cases (str_eq scheme "local")) [
            | inl here ↦
                rw (e, other, here)
                  (bind-Gives IsComplete _ _
                    (λ x. local_parts-IsComplete (with_scheme scheme) x here))
            | inr none_of ↦ rw (e, other, none_of) (Gives.fails _)
          ]
        ]
      ]

  parse_parts_of-IsComplete :
      (raw : String) (o : Option (String × String))
      → Gives IsComplete (parse_parts_of to_lower parse_query raw o)
  unfolding parse_parts_of
  parse_parts_of-IsComplete raw none = Gives.fails _
  parse_parts_of-IsComplete raw (some (scheme, rest)) =
      parse_scheme-IsComplete (to_lower scheme) rest

  given : (o : Outcome ParsedUri) (p : ParsedUri) → Gives IsComplete o → o ≡ ok p → IsComplete p
  given (ok q) p (Gives.gives _ h) e = subst IsComplete (ok_injective q p e) h
    where
      ok_injective : (a b : ParsedUri) → ◌≡◌ {A = Outcome ParsedUri} (ok a) (ok b) → a ≡ b
      ok_injective a b e = cc
  given (err x) p h e = absurd (ground arith)

  -- A URI that `ParseURI` of package material accepts has one of its five schemes and all that the
  -- backend needs: a key for the stock platforms, key, secret, bucket, region and mode for OSS, an index
  -- and an embedding backend for the local one.
  pub parse_backend_uri-IsComplete :
      (raw : String) (p : ParsedUri)
      → parse_backend_uri to_lower parse_query raw ≡ ok p
      → IsComplete p
  unfolding parse_backend_uri
  parse_backend_uri-IsComplete raw p h =
      given (parse_backend_uri to_lower parse_query raw) p
        (if-Gives IsComplete (str_eq (trim_space raw) "") _ _
          (λ e. parse_parts_of-IsComplete (trim_space raw) (cut_text "://" (trim_space raw))))
        h
