-- ===== src/Uri/Parse/Keys.antt =====
-- engine/uri.go: a configuration that `ParseURI` gives has a key and the provider of its scheme.
use aigo.Base.{
  String, Bool, true, false, ◌≡◌, refl, ◌∙◌, inl, inr, Option, none, some, Bool-cases, Option-cases,
  str_eq, if◌then◌else◌, arith, subst, sym,
}
use aigo.Base.Cut.{cut, cut_last, cut_text}
use aigo.Base.Cut.Heads.{head_of, BeforeFirst, BeforeLast, cut-BeforeFirst, cut_last-BeforeLast}
use aigo.Base.Text.{trim_space}
use aigo.Config.{EngineConfig}
use aigo.Uri.{before}
use aigo.Errors.{Error, Outcome, ok, err, ◌>>=◌}
use aigo.Uri.Parse.{
  UriEnv, no_config, parse_uri, parse_trimmed, parse_rest, keyed, resolve_scheme, with_query,
  with_params, with_name, query_failed, apply_params, override_scheme, set_name, query_text, Params,
  param, set_key, split_key, set_host, set_user,
}

-- The key and the provider are kept.
abbrev Kept : EngineConfig → EngineConfig → Type 0
Kept c d = (d.api_key ≡ c.api_key) × (d.provider ≡ c.provider)

override_scheme-Kept : (c : EngineConfig) (s : String) → Kept c (override_scheme c s)
unfolding override_scheme
override_scheme-Kept c s = ground arith

ok_injective : (c d : EngineConfig) → ◌≡◌ {A = Outcome EngineConfig} (ok c) (ok d) → c ≡ d
ok_injective c d h = cc

err-ne-ok : (e : Error) (c : EngineConfig) → ◌≡◌ {A = Outcome EngineConfig} (err e) (ok c) → ⊥
err-ne-ok e c h = ground arith

-- A test for an error that let the parse go on.
went_on :
    (b : Bool) (e : Error) (o : Outcome EngineConfig) (c : EngineConfig)
    → (if b then err e else o) ≡ ok c
    → (b ≡ false) × (o ≡ ok c)
went_on true e o c h = absurd (err-ne-ok e c h)
went_on false e o c h = (refl, h)

set_key-provider : (c : EngineConfig) (user : String) → (set_key c user).provider ≡ c.provider
unfolding set_key split_key
set_key-provider c user = elim (Option-cases (cut 58 user)) [
  | inl e ↦ rw e refl
  | inr (p, e) ↦ rw e refl
]

set_host-Kept : (c : EngineConfig) (host : String) → Kept c (set_host c host)
unfolding set_host
set_host-Kept c host = ground arith

set_user-provider :
    (c : EngineConfig) (rest : String) (o : Option (String × String))
    → (set_user c rest o).provider ≡ c.provider
unfolding set_user
set_user-provider c rest none = set_key-provider c rest
set_user-provider c rest (some (user, host)) =
    (set_host-Kept (set_key c user) host).1 ∙ set_key-provider c user

-- The part of the URI before the last `@`.
user_of : String → String
unfolding before
user_of rest = head_of (before rest (cut 63 rest)) (cut_last 64 (before rest (cut 63 rest)))

before-head_of : (s : String) (o : Option (String × String)) → head_of s o ≡ before s o
unfolding before
before-head_of s none = refl
before-head_of s (some (a, b)) = refl

before-BeforeFirst : (rest : String) → BeforeFirst "?" rest (before rest (cut 63 rest))
before-BeforeFirst rest =
    subst (BeforeFirst "?" rest) (before-head_of rest (cut 63 rest)) (cut-BeforeFirst "?" rest)

user_of-BeforeLast : (rest : String) → BeforeLast "@" (before rest (cut 63 rest)) (user_of rest)
unfolding user_of
user_of-BeforeLast rest = cut_last-BeforeLast "@" (before rest (cut 63 rest))

head_of-key : (user : String) → BeforeFirst ":" user (head_of user (cut 58 user))
head_of-key user = cut-BeforeFirst ":" user

split_key-key :
    (c : EngineConfig) (user : String) (o : Option (String × String))
    → (split_key c user o).api_key ≡ head_of user o
unfolding split_key
split_key-key c user none = refl
split_key-key c user (some (a, b)) = refl

set_key-key :
    (c : EngineConfig) (user : String) → (set_key c user).api_key ≡ head_of user (cut 58 user)
unfolding set_key
set_key-key c user = split_key-key c user (cut 58 user)

set_user-key :
    (c : EngineConfig) (body : String) (o : Option (String × String))
    → (set_user c body o).api_key ≡ head_of (head_of body o) (cut 58 (head_of body o))
unfolding set_user
set_user-key c body none = set_key-key c body
set_user-key c body (some (user, host)) =
    (set_host-Kept (set_key c user) host).0 ∙ set_key-key c user

module _ {E : Type 0} (env : UriEnv E) where
  -- The configuration has a key and the provider of its scheme. The key stands in the URI after the
  -- scheme: before the first `?`, in that before the last `@`, and in that before the first `:`, if
  -- there are such marks.
  pub record FromUri (raw : String) (c : EngineConfig) : Type 0 where
    pub scheme : String
    pub rest : String
    pub parts : cut_text "://" (trim_space raw) ≡ some (scheme, rest)
    pub has_key : str_eq c.api_key "" ≡ false
    pub body : String
    pub user : String
    pub body_part : BeforeFirst "?" rest body
    pub user_part : BeforeLast "@" body user
    pub key_part : BeforeFirst ":" user c.api_key
    pub provider : c.provider ≡ resolve_scheme env (env.to_lower scheme)

  keyed-provider :
      (scheme rest : String)
      → (keyed env scheme rest).provider ≡ resolve_scheme env (env.to_lower scheme)
  unfolding keyed
  keyed-provider scheme rest = search set_user-provider

  keyed-key :
      (scheme rest : String)
      → (keyed env scheme rest).api_key ≡ head_of (user_of rest) (cut 58 (user_of rest))
  unfolding keyed user_of
  keyed-key scheme rest =
      set_user-key (record no_config { provider = resolve_scheme env (env.to_lower scheme) })
        (before rest (cut 63 rest)) (cut_last 64 (before rest (cut 63 rest)))

  KeptBy : EngineConfig → Outcome EngineConfig → Type 0
  KeptBy c (ok d) = Kept c d
  KeptBy c (err e) = Unit

  with_params-Kept : (c : EngineConfig) (ps : Params) → Kept c (with_params env c ps)
  unfolding with_params apply_params
  with_params-Kept c ps = override_scheme-Kept c (param ps "scheme")

  asked-Kept :
      (raw : String) (c : EngineConfig) (o : Outcome Params)
      → KeptBy c (query_failed raw o >>= λ ps. ok (with_params env c ps))
  unfolding KeptBy query_failed
  asked-Kept raw c (ok ps) = with_params-Kept c ps
  asked-Kept raw c (err e) = tt

  with_query-Kept :
      (raw : String) (c : EngineConfig) (q : String) → KeptBy c (with_query env raw c q)
  unfolding with_query KeptBy
  with_query-Kept raw c q = elim (Bool-cases (str_eq q "")) [
    | inl e ↦ rw e (refl, refl)
    | inr e ↦ rw e (asked-Kept raw c (env.parse_query q))
  ]

  named-Kept :
      (c : EngineConfig) (o : Outcome EngineConfig) → KeptBy c o → KeptBy c (o >>= with_name env)
  unfolding KeptBy with_name set_name
  named-Kept c (ok d) k = k
  named-Kept c (err e) k = tt

  same_if_ok : (c d : EngineConfig) (o : Outcome EngineConfig) → KeptBy c o → o ≡ ok d → Kept c d
  unfolding KeptBy
  same_if_ok c d (ok x) k e = subst (Kept c) (ok_injective x d e) k
  same_if_ok c d (err x) k e = absurd (err-ne-ok x d e)

  parse_rest-FromUri :
      (raw text scheme rest : String) (c : EngineConfig)
      → cut_text "://" (trim_space raw) ≡ some (scheme, rest)
      → parse_rest env text scheme rest ≡ ok c
      → FromUri raw c
  unfolding parse_rest
  parse_rest-FromUri raw text scheme rest c parts h =
      let on = went_on (str_eq (keyed env scheme rest).api_key "") _ _ c h in
      let kept =
        same_if_ok (keyed env scheme rest) c _
          (named-Kept (keyed env scheme rest) _
            (with_query-Kept text (keyed env scheme rest) (query_text (cut 63 rest))))
          on.1 in
      record {
        scheme = scheme;
        rest = rest;
        parts = parts;
        has_key = rw kept.0 on.0;
        body = before rest (cut 63 rest);
        user = user_of rest;
        body_part = before-BeforeFirst rest;
        user_part = user_of-BeforeLast rest;
        key_part =
            subst (BeforeFirst ":" (user_of rest)) (sym (kept.0 ∙ keyed-key scheme rest))
              (head_of-key (user_of rest));
        provider = kept.1 ∙ keyed-provider scheme rest;
      }

  parse_trimmed-FromUri :
      (raw text : String) (o : Option (String × String)) (c : EngineConfig)
      → cut_text "://" (trim_space raw) ≡ o
      → parse_trimmed env text o ≡ ok c
      → FromUri raw c
  unfolding parse_trimmed
  parse_trimmed-FromUri raw text none c parts h = absurd (err-ne-ok _ c h)
  parse_trimmed-FromUri raw text (some (scheme, rest)) c parts h =
      parse_rest-FromUri raw text scheme rest c parts h

  -- A configuration that `ParseURI` gives has a non-empty key and the provider that the scheme in lower
  -- case resolves to. The key is read from what follows the first `://` of the trimmed URI: what stands
  -- before the first `?` of it, before the last `@` of that, and before the first `:` of that, where
  -- there are such marks. No query parameter changes the key or the provider.
  pub parse_uri-FromUri :
      (raw : String) (c : EngineConfig) → parse_uri env raw ≡ ok c → FromUri raw c
  unfolding parse_uri
  parse_uri-FromUri raw c h =
      parse_trimmed-FromUri raw (trim_space raw) (cut_text "://" (trim_space raw)) c refl
        (went_on (str_eq (trim_space raw) "") _ _ c h).1
