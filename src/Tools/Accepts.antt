-- ===== src/Tools/Accepts.antt =====
-- tooldef/tooldef.go: what the parameters look like that `ValidateParams` lets pass.
use text.Mathlib.TextEquality.{eq_iff}
use aigo.Base.{
  String, Bool, true, false, not, ◌&&◌, ◌≡◌, refl, ◌⊎◌, subst, ap, sym, ◌∙◌, inl, inr, Option, none,
  some, List, [], ◌∷◌, length, All, some_of, str_eq, arith,
}
use aigo.Base.Assoc.{Map, IsMap, get, has, get-put, str_eq_refl}
use aigo.Errors.{Error}
use aigo.Workflow.{Value}
use aigo.Tools.{
  Schema, ToolDef, Params, is_missing, text_of, is_blank_text, check_given, check_required,
  matching, use_entry, check_text, check_enum, check_enums, check_group, check_groups, provided,
  first_error, after_required, validate_params, properties_of, required_of, enum_of, one_of,
}

-- The value is there, is not nil and is not a blank string.
abbrev pub is_given : Option Value → Bool
is_given v = not (is_missing v) && not (is_blank_text (text_of v))

-- The value is a string only if it is an entry of the enum, when there is one.
abbrev pub is_chosen : List String → Option String → Bool
is_chosen [] v = true
is_chosen (e ∷ enum) none = true
is_chosen (e ∷ enum) (some s) = some_of (λ x. str_eq x s) (e ∷ enum)

-- The value is as it was, or is a string that became another one with the same letters.
abbrev pub Folded : (String → String → Bool) → Option Value → Option Value → Type 0
Folded fold old new =
    (new ≡ old)
    ⊎ ((s : String) × (e : String) × (text_of old ≡ some s)
        × (new ≡ some (Value.str e))
        × (fold s e ≡ true))

passed :
    (x rest : Option Error × Params)
    → (first_error x rest).0 ≡ none
    → (x.0 ≡ none) × (first_error x rest ≡ rest)
unfolding first_error
passed (none, params) rest h = (refl, refl)
passed (some e, params) rest h = absurd (ground arith)

module _ (fold : String → String → Bool) where
  some_of-matching :
      (s e : String) (enum : List String)
      → matching fold s enum ≡ some e
      → some_of (λ x. str_eq x e) enum ≡ true
  unfolding matching
  some_of-matching s e [] h = absurd (ground arith)
  some_of-matching s e (x ∷ enum) h = ground (arith, some_of-matching s e enum, eq_iff x e)

  fold-matching :
      (s e : String) (enum : List String) → matching fold s enum ≡ some e → fold s e ≡ true
  unfolding matching
  fold-matching s e [] h = absurd (ground arith)
  fold-matching s e (x ∷ enum) h = ground (arith, fold-matching s e enum)

  -- A check of one name leaves the other names alone.
  get-use_entry :
      (name j s : String) (enum : List String) (found : Option String) (params : Params)
      → str_eq name j ≡ false
      → get (use_entry fold name s enum found params).1 j ≡ get params j
  unfolding use_entry
  get-use_entry name j s enum none params h = refl
  get-use_entry name j s enum (some e) params h =
      ground (arith, get-put params name j (Value.str e))

  get-check_text :
      (name j : String) (enum : List String) (text : Option String) (params : Params)
      → str_eq name j ≡ false
      → get (check_text fold name enum text params).1 j ≡ get params j
  unfolding check_text
  get-check_text name j enum none params h = refl
  get-check_text name j enum (some s) params h =
      get-use_entry name j s enum (matching fold s enum) params h

  get-check_enum :
      (name j : String) (enum : List String) (params : Params)
      → str_eq name j ≡ false
      → get (check_enum fold name enum params).1 j ≡ get params j
  unfolding check_enum
  get-check_enum name j [] params h = refl
  get-check_enum name j (e ∷ enum) params h =
      get-check_text name j (e ∷ enum) (text_of (get params name)) params h

  get-check_enums :
      (j : String) (props : Map Schema) (params : Params)
      → has props j ≡ false
      → get (check_enums fold props params).1 j ≡ get params j
  unfolding check_enums has
  get-check_enums j [] params h = refl
  get-check_enums j ((name, prop) ∷ props) params h = ground (
    arith,
    get-check_enum name j (enum_of prop) params,
    get-check_enums j props (check_enum fold name (enum_of prop) params).1,
  )

  -- A check that passes leaves an entry of the enum.
  use_entry-IsChosen :
      (name s e : String) (enum : List String) (found : Option String) (params : Params)
      → ((x : String) → found ≡ some x → some_of (λ y. str_eq y x) (e ∷ enum) ≡ true)
      → (use_entry fold name s (e ∷ enum) found params).0 ≡ none
      → is_chosen (e ∷ enum) (text_of (get (use_entry fold name s (e ∷ enum) found params).1 name))
        ≡ true
  unfolding use_entry text_of
  use_entry-IsChosen name s e enum none params listed h = absurd (ground arith)
  use_entry-IsChosen name s e enum (some x) params listed h =
      rw (get-put params name name (Value.str x), str_eq_refl name, listed x refl)

  check_text-IsChosen :
      (name e : String) (enum : List String) (text : Option String) (params : Params)
      → text_of (get params name) ≡ text
      → (check_text fold name (e ∷ enum) text params).0 ≡ none
      → is_chosen (e ∷ enum) (text_of (get (check_text fold name (e ∷ enum) text params).1 name))
        ≡ true
  unfolding check_text
  check_text-IsChosen name e enum none params same h = rw same
  check_text-IsChosen name e enum (some s) params same h =
      use_entry-IsChosen name s e enum (matching fold s (e ∷ enum)) params
        (λ x. some_of-matching s x (e ∷ enum)) h

  check_enum-IsChosen :
      (name : String) (enum : List String) (params : Params)
      → (check_enum fold name enum params).0 ≡ none
      → is_chosen enum (text_of (get (check_enum fold name enum params).1 name)) ≡ true
  unfolding check_enum
  check_enum-IsChosen name [] params h = refl
  check_enum-IsChosen name (e ∷ enum) params h =
      check_text-IsChosen name e enum (text_of (get params name)) params refl h

  check_enums-AreChosen :
      (props : Map Schema) (params : Params)
      → IsMap props
      → (check_enums fold props params).0 ≡ none
      → All
          (λ (p : String × Schema).
            is_chosen (enum_of p.1) (text_of (get (check_enums fold props params).1 p.0)) ≡ true)
          props
  unfolding check_enums
  check_enums-AreChosen [] params m h = tt
  check_enums-AreChosen ((name, prop) ∷ props) params m h =
      let checked = check_enum fold name (enum_of prop) params in
      let both = passed checked (check_enums fold props checked.1) h in
      subst
        (λ (y : Option Error × Params).
          All (λ (p : String × Schema). is_chosen (enum_of p.1) (text_of (get y.1 p.0)) ≡ true)
            ((name, prop) ∷ props))
        (sym both.1)
        (
          rw (get-check_enums name props checked.1 m.0)
              (check_enum-IsChosen name (enum_of prop) params both.0),
          check_enums-AreChosen props checked.1 m.1
              (ap (λ (x : Option Error × Params). x.0) (sym both.1) ∙ h),
        )

  -- A value changes only from a text to an entry with the same letters.
  use_entry-Folded :
      (name s : String) (enum : List String) (found : Option String) (params : Params)
      → text_of (get params name) ≡ some s
      → ((x : String) → found ≡ some x → fold s x ≡ true)
      → Folded fold (get params name) (get (use_entry fold name s enum found params).1 name)
  unfolding use_entry
  use_entry-Folded name s enum none params same h = inl refl
  use_entry-Folded name s enum (some x) params same h =
      inr (s, x, same, rw (get-put params name name (Value.str x), str_eq_refl name), h x refl)

  check_text-Folded :
      (name : String) (enum : List String) (text : Option String) (params : Params)
      → text_of (get params name) ≡ text
      → Folded fold (get params name) (get (check_text fold name enum text params).1 name)
  unfolding check_text
  check_text-Folded name enum none params same = inl refl
  check_text-Folded name enum (some s) params same =
      use_entry-Folded name s enum (matching fold s enum) params same (λ x. fold-matching s x enum)

  check_enum-Folded :
      (name : String) (enum : List String) (params : Params)
      → Folded fold (get params name) (get (check_enum fold name enum params).1 name)
  unfolding check_enum
  check_enum-Folded name [] params = inl refl
  check_enum-Folded name (e ∷ enum) params =
      check_text-Folded name (e ∷ enum) (text_of (get params name)) params refl

  first_error-Folded :
      (old : Option Value) (j : String) (x rest : Option Error × Params)
      → Folded fold old (get x.1 j)
      → Folded fold old (get rest.1 j)
      → Folded fold old (get (first_error x rest).1 j)
  unfolding first_error
  first_error-Folded old j (none, params) rest one two = two
  first_error-Folded old j (some e, params) rest one two = one

  -- One name is met once, so that its value changes once.
  rest-Folded :
      (name j : String) (prop : Schema) (props : Map Schema) (params : Params) (b : Bool)
      → str_eq name j ≡ b
      → has props name ≡ false
      → Folded fold
          (get (check_enum fold name (enum_of prop) params).1 j)
          (get (check_enums fold props (check_enum fold name (enum_of prop) params).1).1 j)
      → (Folded fold (get params j) (get (check_enum fold name (enum_of prop) params).1 j))
        × Folded fold
            (get params j)
            (get (check_enums fold props (check_enum fold name (enum_of prop) params).1).1 j)
  rest-Folded name j prop props params true same absent more =
      let checked = check_enum fold name (enum_of prop) params in
      subst
        (λ k.
          (Folded fold (get params k) (get checked.1 k))
          × Folded fold (get params k) (get (check_enums fold props checked.1).1 k))
        ((eq_iff name j).0 same)
        (
          check_enum-Folded name (enum_of prop) params,
          subst (Folded fold (get params name)) (sym (get-check_enums name props checked.1 absent))
              (check_enum-Folded name (enum_of prop) params),
        )
  rest-Folded name j prop props params false same absent more =
      let keeps = get-check_enum name j (enum_of prop) params same in
      (
        inl keeps,
        subst
            (λ v.
              Folded fold v
                (get (check_enums fold props (check_enum fold name (enum_of prop) params).1).1 j))
            keeps more,
      )

  check_enums-Folded :
      (props : Map Schema) (params : Params) (j : String)
      → IsMap props
      → Folded fold (get params j) (get (check_enums fold props params).1 j)
  unfolding check_enums
  check_enums-Folded [] params j m = inl refl
  check_enums-Folded ((name, prop) ∷ props) params j m =
      let checked = check_enum fold name (enum_of prop) params in
      let both =
        rest-Folded name j prop props params (str_eq name j) refl m.0
          (check_enums-Folded props checked.1 j m.1) in
      first_error-Folded (get params j) j checked (check_enums fold props checked.1) both.0 both.1

both_none :
    (o rest : Option Error)
    → elim o [ some e ↦ some e | none ↦ rest ] ≡ none
    → (o ≡ none) × (rest ≡ none)
both_none none rest h = (refl, h)
both_none (some e) rest h = absurd (ground arith)

check_given-is_given :
    (name : String) (v : Option Value) → check_given name v ≡ none → is_given v ≡ true
unfolding check_given
check_given-is_given name v h = ground arith

check_required-given :
    (params : Params) (names : List String)
    → check_required params names ≡ none
    → All (λ n. is_given (get params n) ≡ true) names
unfolding check_required
check_required-given params [] h = tt
check_required-given params (name ∷ names) h =
    let both = both_none (check_given name (get params name)) (check_required params names) h in
    (check_given-is_given name (get params name) both.0, check_required-given params names both.1)

check_group-one : (group names : List String) → check_group group names ≡ none → length names ≡ 1
unfolding check_group
check_group-one group [] h = absurd (ground arith)
check_group-one group (name ∷ []) h = refl
check_group-one group (name ∷ other ∷ names) h = absurd (ground arith)

check_groups-one :
    (params : Params) (groups : List (List String))
    → check_groups params groups ≡ none
    → All (λ g. length (provided params g) ≡ 1) groups
unfolding check_groups
check_groups-one params [] h = tt
check_groups-one params (group ∷ groups) h =
    let both =
      both_none (check_group group (provided params group)) (check_groups params groups) h in
    (check_group-one group (provided params group) both.0, check_groups-one params groups both.1)

-- A call that passes has passed the three checks.
three_passed :
    (fold : String → String → Bool) (def : ToolDef) (o : Option Error) (params after : Params)
    → after_required fold def o params ≡ (none, after)
    → (o ≡ none)
      × ((check_enums fold (properties_of def.parameters) params).0 ≡ none)
      × ((check_enums fold (properties_of def.parameters) params).1 ≡ after)
      × (check_groups after (one_of def.parameters) ≡ none)
unfolding after_required
three_passed fold def (some e) params after h = absurd (ground arith)
three_passed fold def none params after h =
    let checked = check_enums fold (properties_of def.parameters) params in
    let both =
      passed checked (check_groups checked.1 (one_of def.parameters), checked.1)
        (ap (λ (x : Option Error × Params). x.0) h) in
    let ends = sym both.1 ∙ h in
    let same = ap (λ (x : Option Error × Params). x.1) ends in
    (
      refl,
      both.0,
      same,
      subst (λ p. check_groups p (one_of def.parameters) ≡ none) same
          (ap (λ (x : Option Error × Params). x.0) ends),
    )

-- Parameters that ValidateParams lets pass had a value for each required name that is not nil and no
-- blank string. Afterwards each string of a property with an enum is an entry of it, each group has
-- exactly one name that is provided, and a value has changed at most from a string to one that
-- EqualFold takes for the same.
pub validate_params-Accepts :
    (fold : String → String → Bool) (def : ToolDef) (params after : Params)
    → IsMap (properties_of def.parameters)
    → validate_params fold def params ≡ (none, after)
    → (All (λ n. is_given (get params n) ≡ true) (required_of def.parameters))
      × (All
          (λ (p : String × Schema). is_chosen (enum_of p.1) (text_of (get after p.0)) ≡ true)
          (properties_of def.parameters))
      × (All (λ g. length (provided after g) ≡ 1) (one_of def.parameters))
      × ((j : String) → Folded fold (get params j) (get after j))
unfolding validate_params
validate_params-Accepts fold def params after m h =
    let done =
      three_passed fold def (check_required params (required_of def.parameters)) params after h in
    let props = properties_of def.parameters in
    (
      check_required-given params (required_of def.parameters) done.0,
      subst
          (λ (p : Params).
            All (λ (q : String × Schema). is_chosen (enum_of q.1) (text_of (get p q.0)) ≡ true)
              props)
          done.2 (check_enums-AreChosen fold props params m done.1),
      check_groups-one after (one_of def.parameters) done.3,
      λ j.
          subst (λ (p : Params). Folded fold (get params j) (get p j)) done.2
            (check_enums-Folded fold props params j m),
    )
