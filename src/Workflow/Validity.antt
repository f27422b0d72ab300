-- ===== src/Workflow/Validity.antt =====
-- What `Validate` accepts.
use aigo.Base.{◌≡◌, refl, ◌≢◌, ◌↔◌, false, none, [], ◌∷◌, arith, All}
use aigo.Base.Text.{is_blank}
use aigo.Workflow.{Graph, validate, validate_nodes}

-- Every node has an id and a class type that are not blank.
abbrev pub IsNamed : Graph → Type 0
IsNamed g = All (λ e. (is_blank e.0 ≡ false) × (is_blank e.1.class_type ≡ false)) g

validate_nodes-IsNamed : (g : Graph) → validate_nodes g ≡ none → IsNamed g
unfolding validate_nodes
validate_nodes-IsNamed [] h = tt
validate_nodes-IsNamed ((id, node) ∷ g) h =
    ((ground arith, ground arith), validate_nodes-IsNamed g (ground arith))

IsNamed-validate_nodes : (g : Graph) → IsNamed g → validate_nodes g ≡ none
unfolding validate_nodes
IsNamed-validate_nodes [] h = refl
IsNamed-validate_nodes ((id, node) ∷ g) h = ground (arith, IsNamed-validate_nodes g h.1)

-- `Validate` returns nil exactly when the graph has a node and no node has a blank id or class
-- type, whatever the order in which the map is walked.
pub validate_iff : (g : Graph) → (validate g ≡ none) ↔ ((g ≢ []) × IsNamed g)
unfolding validate
validate_iff [] = (λ h. ground arith, λ h. absurd (h.0 refl))
validate_iff (n ∷ g) = (
  λ h. (λ e. ground arith, validate_nodes-IsNamed (n ∷ g) h),
  λ h. IsNamed-validate_nodes (n ∷ g) h.1,
)
