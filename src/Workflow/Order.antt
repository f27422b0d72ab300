-- ===== src/Workflow/Order.antt =====
-- Lookups by class do not depend on the order of the map, and find exactly the nodes of the class.
use mathlib.Core.List.{Perm}
use text.Mathlib.TextEquality.{eq_iff}
use aigo.Base.{
  String, ◌≡◌, refl, ap, ◌∙◌, false, ◌&&◌, none, some, List, [], ◌∷◌, arith, str_eq, some_of, All,
  Bool-cases, Option-cases, inl, inr, true,
}
use aigo.Base.Assoc.{get, keys, has-eq-get, some_of-keys}
use aigo.Base.Text.{str_leb}
use aigo.Base.Sort.{IsSorted, sort_strings-IsSorted, sort_strings_of_perm, sort-perm, some_of-sort}
use aigo.Workflow.{Node, NodeRef, Graph, sorted_node_ids, node_at, refs_of, find_by_class_type}

-- `SortedNodeIDs` lists each id of the graph once for each entry, in ascending order.
sorted_node_ids_lem :
    (g : Graph) → IsSorted str_leb (sorted_node_ids g) × Perm (sorted_node_ids g) (keys g)
unfolding sorted_node_ids
sorted_node_ids_lem g = (sort_strings-IsSorted (keys g), sort-perm str_leb (keys g))

-- The same map, met in another order.
pub record SameGraph (g h : Graph) : Type 0 where
  pub ids : Perm (keys g) (keys h)
  pub nodes : (id : String) → get g id ≡ get h id

pub sorted_node_ids-SameGraph :
    (g h : Graph) → SameGraph g h → sorted_node_ids g ≡ sorted_node_ids h
unfolding sorted_node_ids
sorted_node_ids-SameGraph g h same = sort_strings_of_perm (keys g) (keys h) same.ids

pub node_at-SameGraph : (g h : Graph) → SameGraph g h → (id : String) → node_at g id ≡ node_at h id
unfolding node_at
node_at-SameGraph g h same id = rw (same.nodes id, node_at)

refs_of-SameGraph :
    (g h : Graph) (c : String) (ids : List String)
    → SameGraph g h
    → refs_of g c ids ≡ refs_of h c ids
unfolding refs_of
refs_of-SameGraph g h c [] same = refl
refs_of-SameGraph g h c (id ∷ ids) same =
    ground (arith, node_at-SameGraph g h same id, refs_of-SameGraph g h c ids same)

-- `FindByClassType` gives the same references, in the same order, for every order of the map.
pub find_by_class_type-SameGraph :
    (g h : Graph) (c : String) → SameGraph g h → find_by_class_type g c ≡ find_by_class_type h c
unfolding find_by_class_type
find_by_class_type-SameGraph g h c same =
    ap (refs_of g c) (sorted_node_ids-SameGraph g h same) ∙ refs_of-SameGraph g h c _ same

finds-refs_of :
    (g : Graph) (c id : String) (ids : List String)
    → some_of (λ r. str_eq r.id id) (refs_of g c ids)
      ≡ (some_of (λ j. str_eq j id) ids && str_eq (node_at g id).class_type c)
unfolding refs_of
finds-refs_of g c id [] = refl
finds-refs_of g c id (j ∷ ids) = ground (arith, finds-refs_of g c id ids, eq_iff j id)

-- A node is among the references exactly when the graph has it with that class type.
pub find_by_class_type-finds :
    (g : Graph) (c id : String)
    → some_of (λ r. str_eq r.id id) (find_by_class_type g c)
      ≡ (elim (get g id) [ none ↦ false | some n ↦ str_eq n.class_type c ])
unfolding find_by_class_type sorted_node_ids
find_by_class_type-finds g c id =
    finds-refs_of g c id (sorted_node_ids g)
    ∙ (unfold node_at in
        ground (
          arith,
          some_of-sort str_leb (λ j. str_eq j id) (keys g),
          some_of-keys g id,
          has-eq-get g id,
        ))

-- All nodes of one class have one id.
refs_of-All :
    (g : Graph) (c own : String) (ids : List String)
    → ((id : String) → str_eq (node_at g id).class_type c ≡ true → id ≡ own)
    → All (λ (r : NodeRef). r.id ≡ own) (refs_of g c ids)
unfolding refs_of
refs_of-All g c own [] h = tt
refs_of-All g c own (id ∷ ids) h = elim (Bool-cases (str_eq (node_at g id).class_type c)) [
  | inl e ↦ rw e (h id e, refs_of-All g c own ids h)
  | inr e ↦ rw e (refs_of-All g c own ids h)
]

class_at :
    (g : Graph) (c own : String)
    → str_eq "" c ≡ false
    → ((id : String) (n : Node) → get g id ≡ some n → n.class_type ≡ c → id ≡ own)
    → (id : String) → str_eq (node_at g id).class_type c ≡ true
    → id ≡ own
unfolding node_at
class_at g c own named only id e = elim (Option-cases (get g id)) [
  | inl p ↦ absurd (ground (arith, p, e, named))
  | inr (n, p) ↦ only id n p ((eq_iff n.class_type c).0 (ground (arith, p, e)))
]

-- If one node has the class, each reference is to it.
pub find_by_class_type-All :
    (g : Graph) (c own : String)
    → str_eq "" c ≡ false
    → ((id : String) (n : Node) → get g id ≡ some n → n.class_type ≡ c → id ≡ own)
    → All (λ (r : NodeRef). r.id ≡ own) (find_by_class_type g c)
unfolding find_by_class_type
find_by_class_type-All g c own named only = refs_of-All g c own _ (class_at g c own named only)
