-- ===== src/Uri/Parse/Names.antt =====
-- engine/uri.go: the configurations of a list of URIs, and the names that are numbered.
use aigo.Base.{
  ℕ, suc, ◌<◌, String, Bool, true, false, ◌≡◌, refl, ◌⊎◌, inl, inr, List, [], ◌∷◌, Bool-cases, ltb,
  ltb→lt, str_eq, if◌then◌else◌, arith, subst,
}
use aigo.Base.Assoc.{Map}
use aigo.Base.Cut.{split}
use aigo.Base.Decimal.{itoa}
use aigo.Base.Scan.{◌<>◌}
use aigo.Base.Text.{trim_space}
use aigo.Config.{EngineConfig}
use aigo.Errors.{Error, Outcome, ok, err, ◌>>=◌}
use aigo.Uri.Parse.{
  UriEnv, parse_uri, parse_uris, parse_parts, numbered, counted, count_of, unless_none,
}

-- The same configuration, by its name or by its name with a number from 2 on.
abbrev pub Renamed : EngineConfig → EngineConfig → Type 0
Renamed c d = (d ≡ c) ⊎ ((n : ℕ) × (1 < n) × (d ≡ record c { name = c.name <> "-" <> itoa n }))

-- The configurations of the parts that are not blank, in order.
pub data Parsed {E : Type 0} (env : UriEnv E) : List String → List EngineConfig → Type 0 where
  none_left : Parsed env [] []
  blank :
      (part : String) (parts : List String) (cs : List EngineConfig)
      → str_eq (trim_space part) "" ≡ true
      → Parsed env parts cs
      → Parsed env (part ∷ parts) cs
  parsed :
      (part : String) (parts : List String) (c d : EngineConfig) (cs : List EngineConfig)
      → str_eq (trim_space part) "" ≡ false
      → parse_uri env (trim_space part) ≡ ok c
      → Renamed c d
      → Parsed env parts cs
      → Parsed env (part ∷ parts) (d ∷ cs)

module _ {E : Type 0} (env : UriEnv E) where
  numbered-Renamed : (counts : Map ℕ) (c : EngineConfig) → Renamed c (numbered env counts c)
  unfolding numbered
  numbered-Renamed counts c = elim (Bool-cases (ltb 1 (suc (count_of env counts c.name)))) [
    | inl e ↦ rw e (inr (suc (count_of env counts c.name), ltb→lt _ _ e, refl))
    | inr e ↦ rw e (inl refl)
  ]

  -- The configurations of a list that was parsed.
  IsParsed : List String → Outcome (List EngineConfig) → Type 0
  IsParsed parts (ok cs) = Parsed env parts cs
  IsParsed parts (err e) = Unit

  more-IsParsed :
      (part : String) (parts : List String) (counts : Map ℕ) (c : EngineConfig)
      (o : Outcome (List EngineConfig))
      → str_eq (trim_space part) "" ≡ false
      → parse_uri env (trim_space part) ≡ ok c
      → IsParsed parts o
      → IsParsed (part ∷ parts) (o >>= λ cs. ok (numbered env counts c ∷ cs))
  unfolding IsParsed
  more-IsParsed part parts counts c (ok cs) e h k =
      Parsed.parsed part parts c (numbered env counts c) cs e h (numbered-Renamed counts c) k
  more-IsParsed part parts counts c (err x) e h k = tt

  blank-IsParsed :
      (part : String) (parts : List String) (o : Outcome (List EngineConfig))
      → str_eq (trim_space part) "" ≡ true
      → IsParsed parts o
      → IsParsed (part ∷ parts) o
  unfolding IsParsed
  blank-IsParsed part parts (ok cs) e k = Parsed.blank part parts cs e k
  blank-IsParsed part parts (err x) e k = tt

  part-IsParsed :
      (part : String) (parts : List String) (counts : Map ℕ) (o : Outcome EngineConfig)
      → str_eq (trim_space part) "" ≡ false
      → parse_uri env (trim_space part) ≡ o
      → ((c : EngineConfig) → IsParsed parts (parse_parts env (counted env counts c) parts))
      → IsParsed (part ∷ parts) (
          o >>= λ c.
          parse_parts env (counted env counts c) parts >>= λ cs. ok (numbered env counts c ∷ cs))
  unfolding IsParsed
  part-IsParsed part parts counts (ok c) e h rest = more-IsParsed part parts counts c _ e h (rest c)
  part-IsParsed part parts counts (err x) e h rest = tt

  parse_parts-IsParsed :
      (parts : List String) (counts : Map ℕ) → IsParsed parts (parse_parts env counts parts)
  unfolding parse_parts IsParsed
  parse_parts-IsParsed [] counts = Parsed.none_left
  parse_parts-IsParsed (part ∷ parts) counts = elim (Bool-cases (str_eq (trim_space part) "")) [
    | inl e ↦ rw e (blank-IsParsed part parts _ e (parse_parts-IsParsed parts counts))
    | inr e ↦ rw e (
        part-IsParsed part parts counts _ e refl
          (λ c. parse_parts-IsParsed parts (counted env counts c)))
  ]

  unless_none-ok :
      (parts : List String) (o : Outcome (List EngineConfig)) (cs : List EngineConfig)
      → IsParsed parts o
      → (o >>= unless_none env) ≡ ok cs
      → Parsed env parts cs
  unfolding IsParsed unless_none
  unless_none-ok parts (ok []) cs k h = absurd (ground arith)
  unless_none-ok parts (ok (x ∷ xs)) cs k h =
      subst (Parsed env parts) (ok_injective (x ∷ xs) cs h) k
    where
      ok_injective :
          (a b : List EngineConfig) → ◌≡◌ {A = Outcome (List EngineConfig)} (ok a) (ok b) → a ≡ b
      ok_injective a b e = cc
  unless_none-ok parts (err e) cs k h = absurd (ground arith)

  -- What `ParseURIs` gives are the configurations of the parts between the commas that are not blank, in
  -- order and all of them, each as `ParseURI` gives it but for a name that may be numbered from 2 on.
  pub parse_uris-Parsed :
      (raw : String) (cs : List EngineConfig)
      → parse_uris env raw ≡ ok cs
      → Parsed env (split 44 (trim_space raw)) cs
  unfolding parse_uris
  parse_uris-Parsed raw cs h = elim (Bool-cases (str_eq (trim_space raw) "")) [
    | inl e ↦ absurd (went_wrong _ _ _ e h)
    | inr e ↦
        unless_none-ok (split 44 (trim_space raw)) _ cs
          (parse_parts-IsParsed (split 44 (trim_space raw)) []) (went_on _ _ _ e h)
  ]
    where
      went_wrong :
          (b : Bool) (x : Error) (o : Outcome (List EngineConfig))
          → b ≡ true
          → (if b then err x else o) ≡ ok cs
          → ⊥
      went_wrong true x o e h = ground arith
      went_wrong false x o e h = ground arith

      went_on :
          (b : Bool) (x : Error) (o : Outcome (List EngineConfig))
          → b ≡ false
          → (if b then err x else o) ≡ ok cs
          → o ≡ ok cs
      went_on true x o e h = absurd (ground arith)
      went_on false x o e h = h
