-- ===== src/Selector/Choices.antt =====
-- What the priority selector may choose.
use aigo.Base.{
  String, ◌≡◌, refl, sym, ap, ◌⊎◌, ◌++◌, All, ◌∙◌, Bool, true, false, ◌&&◌, Option, none, some,
  List, [], ◌∷◌, select, some_of, str_eq, arith, Bool-cases, inl, inr,
}
use aigo.Base.Assoc.{str_eq_refl}
use aigo.Base.Text.{str_leb}
use aigo.Base.Sort.{sort_strings, some_of-sort}
use aigo.Errors.{Outcome, ok}
use aigo.Task.{AgentTask}
use aigo.Selector.{
  EngineInfo, Selection, accepts, filter, first_available, first_sorted, chosen, select_engine,
  compatible, select_engine_from_candidates,
}

first_available-available :
    (available : String → Bool) (names : List String) (name : String)
    → first_available available names ≡ some name
    → available name ≡ true
unfolding first_available
first_available-available available [] name h = absurd (ground arith)
first_available-available available (n ∷ names) name h = elim (Bool-cases (available n)) [
  | inl e ↦ ground (arith, e, h, ap available)
  | inr e ↦ first_available-available available names name (ground (arith, e, h))
]

first_available-prefers :
    (available : String → Bool) (before after : List String) (name : String)
    → All (λ n. available n ≡ false) before
    → available name ≡ true
    → first_available available (before ++ name ∷ after) ≡ some name
unfolding first_available
first_available-prefers available [] after name h a = rw a refl
first_available-prefers available (n ∷ before) after name h a =
    rw (h.0) (first_available-prefers available before after name h.1 a)

chosen-cases :
    (reason : String) (fallback : Outcome Selection) (o : Option String) (s : Selection)
    → chosen reason fallback o ≡ ok s
    → (o ≡ some s.engine) ⊎ (fallback ≡ ok s)
unfolding chosen
chosen-cases reason fallback none s h = inr h
chosen-cases reason fallback (some name) s h = inl (ground arith)

first_sorted-listed :
    (names : List String) (s : Selection)
    → first_sorted names ≡ ok s
    → some_of (λ e. str_eq e s.engine) names ≡ true
unfolding first_sorted
first_sorted-listed [] s h = absurd (ground arith)
first_sorted-listed (n ∷ names) s h = ground (arith, h, str_eq_refl n)

-- An engine that `SelectEngine` returns is among the engines that it was given.
pub select_engine-listed :
    (priority engines : List String) (s : Selection)
    → select_engine priority engines ≡ ok s
    → some_of (λ e. str_eq e s.engine) engines ≡ true
unfolding select_engine
select_engine-listed priority engines s h =
    elim (chosen-cases "priority match" _
      (first_available (λ name. some_of (λ e. str_eq e name) engines) priority) s h) [
        | inl p ↦ first_available-available _ priority s.engine p
        | inr p ↦
            sym (some_of-sort str_leb (λ e. str_eq e s.engine) engines)
            ∙ first_sorted-listed (sort_strings engines) s p
      ]

-- `SelectEngine` returns the first name of the priority list that is available: no later name, and
-- not the fallback.
pub select_engine-prefers :
    (before after engines : List String) (name : String)
    → All (λ n. some_of (λ e. str_eq e n) engines ≡ false) before
    → some_of (λ e. str_eq e name) engines ≡ true
    → select_engine (before ++ name ∷ after) engines
      ≡ ok (record { engine = name; reason = "priority match" })
unfolding select_engine
select_engine-prefers before after engines name h a =
    rw
      (
        first_available-prefers (λ n. some_of (λ e. str_eq e n) engines) before after name h a,
        chosen,
      )
      refl

some_of-select :
    (p q : EngineInfo → Bool) (xs : List EngineInfo)
    → some_of p (select q xs) ≡ some_of (λ x. p x && q x) xs
some_of-select p q [] = refl
some_of-select p q (x ∷ xs) = ground (arith, some_of-select p q xs)

compatible-listed :
    (priority : List String) (cs : List EngineInfo) (s : Selection)
    → compatible priority cs ≡ ok s
    → some_of (λ (i : EngineInfo). str_eq i.name s.engine) cs ≡ true
unfolding compatible
compatible-listed priority [] s h = absurd (ground arith)
compatible-listed priority (c ∷ cs) s h =
    elim (chosen-cases "priority match (capability-filtered)" _
      (first_available (λ name. some_of (λ (i : EngineInfo). str_eq i.name name) (c ∷ cs)) priority)
      s h) [
        | inl p ↦ first_available-available _ priority s.engine p
        | inr p ↦ ground (arith, p, str_eq_refl c.name)
      ]

-- With a filter, an engine that `SelectEngineFromCandidates` returns is the name of a candidate that
-- the filter accepts for the task.
pub select_engine_from_candidates-accepts :
    (priority : List String) (t : AgentTask) (candidates : List EngineInfo) (s : Selection)
    → select_engine_from_candidates priority true t candidates ≡ ok s
    → some_of (λ (i : EngineInfo). str_eq i.name s.engine && accepts t i) candidates ≡ true
unfolding select_engine_from_candidates filter
select_engine_from_candidates-accepts priority t candidates s h =
    sym (some_of-select (λ (i : EngineInfo). str_eq i.name s.engine) (accepts t) candidates)
    ∙ compatible-listed priority (filter t candidates) s h
