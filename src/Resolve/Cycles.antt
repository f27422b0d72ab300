-- ===== src/Resolve/Cycles.antt =====
-- Links between nodes are followed to an end, and what is found is the text of a linked node.
use mathlib.Core.Path.{subst}
use text.Mathlib.TextEquality.{eq_iff}
use aigo.Base.{
  ℕ, zero, suc, ◌≤◌, ◌<◌, String, ◌≡◌, refl, sym, ◌≢◌, false, not, Option, none, some, List, [],
  ◌∷◌, length, some_of, select, length-select-le, str_eq, arith, Bool-cases, Option-cases, inl, inr,
}
use aigo.Base.Assoc.{get, str_eq_refl}
use aigo.Errors.{Outcome, ok, err}
use aigo.Workflow.{Value, Values, Node, NodeRef, Graph, input}
use aigo.Resolve.{
  Resolved, text_keys, keep_unless_blank, resolve_link, resolve_value, try_keys, found_node,
  resolve_node, path_fuel, prompt_of, prompt_from, extract_prompt,
}

-- The nodes of the graph that are not on the path.
unseen : Graph → List String → ℕ
unseen g seen = length (select (λ e. not (some_of (λ j. str_eq j e.0) seen)) g)

unseen-cons-le :
    (g : Graph) (id : String) (seen : List String) → unseen g (id ∷ seen) ≤ unseen g seen
unfolding unseen
unseen-cons-le [] id seen = omega arith
unseen-cons-le (e ∷ g) id seen = ground (arith, unseen-cons-le g id seen)

unseen-cons_here :
    (g : Graph) (id : String) (m : Node) (seen : List String)
    → some_of (λ j. str_eq j id) seen ≡ false
    → unseen ((id, m) ∷ g) (id ∷ seen) < unseen ((id, m) ∷ g) seen
unfolding unseen
unseen-cons_here g id m seen new = ground (arith, str_eq_refl id, unseen-cons-le g id seen)

unseen-cons-lt :
    (g : Graph) (id : String) (seen : List String) (n : Node)
    → get g id ≡ some n
    → some_of (λ j. str_eq j id) seen ≡ false
    → unseen g (id ∷ seen) < unseen g seen
unfolding get unseen
unseen-cons-lt [] id seen n found new = ground arith
unseen-cons-lt ((j, m) ∷ g) id seen n found new = elim (Bool-cases (str_eq j id)) [
  | inl e ↦
      subst (λ k. unseen ((k, m) ∷ g) (id ∷ seen) < unseen ((k, m) ∷ g) seen)
        (sym ((eq_iff j id).0 e)) (unseen-cons_here g id m seen new)
  | inr e ↦ ground (arith, e, unseen-cons-lt g id seen n (ground arith) new)
]

unseen-le : (g : Graph) (seen : List String) → unseen g seen ≤ length g
unfolding unseen
unseen-le g seen = length-select-le _ g

keep_unless_blank-ne-none :
    (r rest : Resolved) → r ≢ none → rest ≢ none → keep_unless_blank r rest ≢ none
unfolding keep_unless_blank
keep_unless_blank-ne-none none rest h k = absurd (h refl)
keep_unless_blank-ne-none (some (err e)) rest h k = ground arith
keep_unless_blank-ne-none (some (ok none)) rest h k = k
keep_unless_blank-ne-none (some (ok (some s))) rest h k = ground arith

module _ (ask : String → Resolved) (answers : (id : String) → ask id ≢ none) where
  resolve_link-ne-none : (vs : Values) → resolve_link ask vs ≢ none
  unfolding resolve_link
  resolve_link-ne-none (Values.cons (Value.str id) vs) = answers id
  resolve_link-ne-none vs = ground arith

  resolve_value-ne-none : (v : Value) → resolve_value ask v ≢ none
  unfolding resolve_value
  resolve_value-ne-none (Value.str s) = ground arith
  resolve_value-ne-none (Value.list vs) = resolve_link-ne-none vs
  resolve_value-ne-none v = ground arith

  try_keys-ne-none : (n : Node) (ks : List String) → try_keys ask n ks ≢ none
  unfolding try_keys
  try_keys-ne-none n [] = ground arith
  try_keys-ne-none n (k ∷ ks) = elim (Option-cases (input n k)) [
    | inl e ↦ rw (e, try_keys) (try_keys-ne-none n ks)
    | inr (v, e) ↦
        rw (e, try_keys)
          (keep_unless_blank-ne-none _ _ (resolve_value-ne-none v) (try_keys-ne-none n ks))
  ]

resolve_node-ne-none :
    (f : ℕ) (g : Graph) (id : String) (seen : List String)
    → unseen g seen < f
    → resolve_node f g id seen ≢ none
unfolding resolve_node
resolve_node-ne-none zero g id seen h = absurd (omega arith)
resolve_node-ne-none (suc f) g id seen h = elim (Bool-cases (some_of (λ j. str_eq j id) seen)) [
  | inl old ↦ rw old (ground arith)
  | inr new ↦ rw new (elim (Option-cases (get g id)) [
    | inl e ↦ rw (e, found_node) (ground arith)
    | inr (n, e) ↦
        rw (e, found_node)
          (try_keys-ne-none _
            (λ link.
              resolve_node-ne-none f g link (id ∷ seen)
                (omega (arith, unseen-cons-lt g id seen n e new)))
            n text_keys)
  ])
]

-- With one unit of fuel more than the graph has nodes, resolution ends from every node: a cycle of
-- links is reported and not followed.
resolve_node-path_fuel : (g : Graph) (id : String) → resolve_node (path_fuel g) g id [] ≢ none
resolve_node-path_fuel g id =
    resolve_node-ne-none (path_fuel g) g id [] (omega (arith, unseen-le g []))

prompt_of-ne-none :
    (r : Resolved) (rest : Option (Outcome String))
    → r ≢ none
    → rest ≢ none
    → prompt_of r rest ≢ none
unfolding prompt_of
prompt_of-ne-none none rest h k = absurd (h refl)
prompt_of-ne-none (some (err e)) rest h k = ground arith
prompt_of-ne-none (some (ok none)) rest h k = k
prompt_of-ne-none (some (ok (some s))) rest h k = ground arith

prompt_from-ne-none :
    (g : Graph) (rs : List NodeRef) (rest : Option (Outcome String))
    → rest ≢ none
    → prompt_from g rs rest ≢ none
unfolding prompt_from
prompt_from-ne-none g [] rest h = h
prompt_from-ne-none g (r ∷ rs) rest h =
    prompt_of-ne-none _ _ (resolve_node-path_fuel g r.id) (prompt_from-ne-none g rs rest h)

some-ne-none : (r : Outcome String) → ◌≢◌ {A = Option (Outcome String)} (some r) none
some-ne-none r = ground arith

-- `ExtractPrompt` ends with a prompt or an error on every graph, also on one with cycles.
pub extract_prompt-ne-none : (g : Graph) → extract_prompt g ≢ none
unfolding extract_prompt
extract_prompt-ne-none g = prompt_from-ne-none g _ _ (some-ne-none _)
