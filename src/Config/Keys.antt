-- ===== src/Config/Keys.antt =====
-- engine/auth.go: where a resolved key comes from, and when there is none.
use aigo.Base.{
  String, true, false, ◌≡◌, refl, inl, inr, Option, none, some, List, [], ◌∷◌, All, Bool-cases,
  str_eq,
}
use aigo.Base.Text.{trim_space}
use aigo.Config.{Getenv, resolve_key, first_set, found_key, missing_key}
use aigo.Errors.{Outcome, ok, err}

module _ (getenv : Getenv) where
  -- The trimmed value of a variable.
  abbrev pub value_of : String → String
  value_of ev = trim_space (getenv ev)

  -- The first variable that is set, and all before it are not.
  pub data FirstSet (k : String) : List String → Type 0 where
    here :
        (ev : String) (evs : List String)
        → value_of ev ≡ k
        → str_eq k "" ≡ false
        → FirstSet k (ev ∷ evs)
    later :
        (ev : String) (evs : List String)
        → str_eq (value_of ev) "" ≡ true
        → FirstSet k evs
        → FirstSet k (ev ∷ evs)

  -- What `ResolveKey` gives: the explicit value if it is not blank, the first variable that is set, or the
  -- error if none is.
  pub data Resolved (explicit : String) (evs : List String) : Outcome String → Type 0 where
    explicit_key :
        str_eq (trim_space explicit) "" ≡ false → Resolved explicit evs (ok (trim_space explicit))
    from_env :
        (k : String)
        → str_eq (trim_space explicit) "" ≡ true
        → FirstSet k evs
        → Resolved explicit evs (ok k)
    missing :
        str_eq (trim_space explicit) "" ≡ true
        → All (λ ev. str_eq (value_of ev) "" ≡ true) evs
        → Resolved explicit evs (err (missing_key evs))

  Searched : List String → Option String → Type 0
  Searched evs none = All (λ ev. str_eq (value_of ev) "" ≡ true) evs
  Searched evs (some k) = FirstSet k evs

  Searched-later :
      (ev : String) (evs : List String) (o : Option String)
      → str_eq (value_of ev) "" ≡ true
      → Searched evs o
      → Searched (ev ∷ evs) o
  unfolding Searched
  Searched-later ev evs none e h = (e, h)
  Searched-later ev evs (some k) e h = FirstSet.later ev evs e h

  first_set-Searched : (evs : List String) → Searched evs (first_set getenv evs)
  unfolding first_set Searched
  first_set-Searched [] = tt
  first_set-Searched (ev ∷ evs) = elim (Bool-cases (str_eq (value_of ev) "")) [
    | inl e ↦ rw e (Searched-later ev evs _ e (first_set-Searched evs))
    | inr e ↦ rw e (FirstSet.here ev evs refl e)
  ]

  found_key-Resolved :
      (explicit : String) (evs : List String) (o : Option String)
      → str_eq (trim_space explicit) "" ≡ true
      → Searched evs o
      → Resolved explicit evs (found_key o evs)
  unfolding found_key Searched
  found_key-Resolved explicit evs none e h = Resolved.missing e h
  found_key-Resolved explicit evs (some k) e h = Resolved.from_env k e h

  -- `ResolveKey` gives the explicit key, trimmed, if it is not blank; otherwise the trimmed value of the
  -- first variable that is not blank; otherwise the error that lists the variables.
  pub resolve_key-Resolved :
      (explicit : String) (evs : List String)
      → Resolved explicit evs (resolve_key getenv explicit evs)
  unfolding resolve_key
  resolve_key-Resolved explicit evs = elim (Bool-cases (str_eq (trim_space explicit) "")) [
    | inl e ↦ rw e (found_key-Resolved explicit evs _ e (first_set-Searched evs))
    | inr e ↦ rw e (Resolved.explicit_key e)
  ]
