-- ===== src/Resolve/Sources.antt =====
-- Where a resolved text comes from, and what a reported cycle means.
use aigo.Base.{
  ℕ, zero, suc, String, ◌≡◌, refl, ◌∙◌, ◌⊎◌, true, false, Option, none, some, List, [], ◌∷◌,
  some_of, str_eq, arith, Bool-cases, Option-cases, inl, inr, ap,
}
use aigo.Base.Assoc.{get, str_eq_refl}
use aigo.Base.Text.{is_blank}
use aigo.Errors.{ok, err}
use aigo.Workflow.{Value, Values, Node, Graph, input}
use aigo.Resolve.{
  Resolved, text_keys, keep_unless_blank, resolve_link, resolve_value, try_keys, found_node,
  resolve_node,
}

-- `s` is a text of node `id`, or of a node that a chain of links leads to from `id`, and is not
-- blank. Texts and links stand under the keys "text", "prompt", "string" and "value".
pub data Source (g : Graph) : String → String → Type 0 where
  own :
      (id s k : String) (n : Node)
      → get g id ≡ some n
      → some_of (str_eq k) text_keys ≡ true
      → input n k ≡ some (Value.str s)
      → is_blank s ≡ false
      → Source g id s
  linked :
      (id link s k : String) (n : Node) (vs : Values)
      → get g id ≡ some n
      → some_of (str_eq k) text_keys ≡ true
      → input n k ≡ some (Value.list (Values.cons (Value.str link) vs))
      → Source g link s
      → Source g id s

-- What an answer `s` of one key's value means.
abbrev Answers : (String → Resolved) → Value → String → Type 0
Answers ask v s =
    (v ≡ Value.str s) × (is_blank s ≡ false)
    ⊎ ((link : String) × (vs : Values) × (v ≡ Value.list (Values.cons (Value.str link) vs))
        × (ask link ≡ some (ok (some s))))

keep_unless_blank-cases :
    (r rest : Resolved) (s : String)
    → keep_unless_blank r rest ≡ some (ok (some s))
    → (r ≡ some (ok (some s))) × (is_blank s ≡ false) ⊎ (rest ≡ some (ok (some s)))
unfolding keep_unless_blank
keep_unless_blank-cases none rest s h = ground arith
keep_unless_blank-cases (some (err e)) rest s h = ground arith
keep_unless_blank-cases (some (ok none)) rest s h = inr h
keep_unless_blank-cases (some (ok (some t))) rest s h = elim (Bool-cases (is_blank t)) [
  | inl e ↦ inr (ground arith)
  | inr e ↦ inl (ground arith, ground arith)
]

resolve_link-Answers :
    (ask : String → Resolved) (vs : Values) (s : String)
    → resolve_link ask vs ≡ some (ok (some s))
    → is_blank s ≡ false
    → Answers ask (Value.list vs) s
unfolding resolve_link
resolve_link-Answers ask (Values.cons (Value.str id) vs) s h b = inr (id, vs, refl, h)
resolve_link-Answers ask vs s h b = absurd (ground arith)

resolve_value-Answers :
    (ask : String → Resolved) (v : Value) (s : String)
    → resolve_value ask v ≡ some (ok (some s))
    → is_blank s ≡ false
    → Answers ask v s
unfolding resolve_value
resolve_value-Answers ask (Value.str t) s h b = inl (ground arith, b)
resolve_value-Answers ask (Value.list vs) s h b = resolve_link-Answers ask vs s h b
resolve_value-Answers ask v s h b = absurd (ground arith)

try_keys-Answers :
    (ask : String → Resolved) (n : Node) (ks : List String) (s : String)
    → try_keys ask n ks ≡ some (ok (some s))
    → (k : String) × (v : Value) × (some_of (str_eq k) ks ≡ true)
      × (input n k ≡ some v)
      × Answers ask v s
unfolding try_keys
try_keys-Answers ask n [] s h = absurd (ground arith)
try_keys-Answers ask n (k ∷ ks) s h = elim (Option-cases (input n k)) [
  | inl e ↦
      let (k', v, m, i, a) = try_keys-Answers ask n ks s (ground arith) in
      (k', v, ground arith, i, a)
  | inr (v, e) ↦
      elim (keep_unless_blank-cases (resolve_value ask v) (try_keys ask n ks) s (ground arith)) [
        | inl p ↦ (k, v, ground (arith, str_eq_refl k), e, resolve_value-Answers ask v s p.0 p.1)
        | inr p ↦
            let (k', w, m, i, a) = try_keys-Answers ask n ks s p in (k', w, ground arith, i, a)
      ]
]

module _ (g : Graph) (ask : String → Resolved)
    (sound : (link t : String) → ask link ≡ some (ok (some t)) → Source g link t) where
  answers-Source :
      (id k s : String) (n : Node) (v : Value)
      → get g id ≡ some n
      → some_of (str_eq k) text_keys ≡ true
      → input n k ≡ some v
      → Answers ask v s
      → Source g id s
  answers-Source id k s n v e m i (inl (p, b)) = Source.own id s k n e m (i ∙ ap some p) b
  answers-Source id k s n v e m i (inr (link, vs, p, a)) =
      Source.linked id link s k n vs e m (i ∙ ap some p) (sound link s a)

  found_node-Source :
      (id s : String) (o : Option Node)
      → get g id ≡ o
      → found_node ask id o ≡ some (ok (some s))
      → Source g id s
  unfolding found_node
  found_node-Source id s none e r = absurd (ground arith)
  found_node-Source id s (some n) e r =
      let (k, v, m, i, a) = try_keys-Answers ask n text_keys s r in
      answers-Source id k s n v e m i a

-- A string that `ResolveNodeString` returns is not blank and is written at the node itself or at a
-- node that its links lead to.
pub resolve_node-Source :
    (f : ℕ) (g : Graph) (id : String) (seen : List String) (s : String)
    → resolve_node f g id seen ≡ some (ok (some s))
    → Source g id s
unfolding resolve_node
resolve_node-Source zero g id seen s h = absurd (ground arith)
resolve_node-Source (suc f) g id seen s h = elim (Bool-cases (some_of (λ j. str_eq j id) seen)) [
  | inl old ↦ absurd (ground arith)
  | inr new ↦
      found_node-Source g (λ link. resolve_node f g link (id ∷ seen))
        (λ link t a. resolve_node-Source f g link (id ∷ seen) t a) id s (get g id) refl
        (ground arith)
]
