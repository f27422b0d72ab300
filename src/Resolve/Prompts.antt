-- ===== src/Resolve/Prompts.antt =====
-- The prompt of a graph in which one `CLIPTextEncode` node holds a text.
use aigo.Base.{
  ℕ, suc, String, ◌≡◌, refl, ◌∙◌, true, false, Option, some, List, [], ◌∷◌, All, length, some_of,
  str_eq, arith,
}
use aigo.Base.Assoc.{get}
use aigo.Base.Text.{is_blank}
use aigo.Errors.{Outcome, ok}
use aigo.Workflow.{Value, Node, NodeRef, Graph, find_by_class_type, input}
use aigo.Workflow.Order.{find_by_class_type-All, find_by_class_type-finds}
use aigo.Resolve.{
  keep_unless_blank, resolve_value, resolve_node, found_node, try_keys, path_fuel, prompt_of,
  prompt_from, extract_prompt,
}

abbrev pub text_node : String → Node
text_node s = record { class_type = "CLIPTextEncode"; inputs = ("text", Value.str s) ∷ [] }

resolve_own :
    (f : ℕ) (g : Graph) (id s : String)
    → get g id ≡ some (text_node s)
    → is_blank s ≡ false
    → resolve_node (suc f) g id [] ≡ some (ok (some s))
unfolding resolve_node found_node try_keys input get resolve_value keep_unless_blank
resolve_own f g id s h b = rw (h, found_node) (rw b refl)

prompt_from-one :
    (g : Graph) (id s : String) (rs : List NodeRef) (fallback : Option (Outcome String))
    → All (λ (r : NodeRef). r.id ≡ id) rs
    → some_of (λ (r : NodeRef). str_eq r.id id) rs ≡ true
    → resolve_node (path_fuel g) g id [] ≡ some (ok (some s))
    → is_blank s ≡ false
    → prompt_from g rs fallback ≡ some (ok s)
unfolding prompt_from prompt_of
prompt_from-one g id s [] fallback all found h b = absurd (ground arith)
prompt_from-one g id s (r ∷ rs) fallback all found h b = rw (all.0) (rw (h, prompt_of) (rw b refl))

-- If the only node of class `CLIPTextEncode` holds a text that is not blank, the text is the prompt.
pub extract_prompt-one :
    (g : Graph) (id s : String)
    → get g id ≡ some (text_node s)
    → ((j : String) (n : Node) → get g j ≡ some n → n.class_type ≡ "CLIPTextEncode" → j ≡ id)
    → is_blank s ≡ false
    → extract_prompt g ≡ some (ok s)
unfolding extract_prompt
extract_prompt-one g id s h only b =
    prompt_from-one g id s (find_by_class_type g "CLIPTextEncode") _
      (find_by_class_type-All g "CLIPTextEncode" id refl only)
      (find_by_class_type-finds g "CLIPTextEncode" id ∙ rw h refl)
      (resolve_own (length g) g id s h b) b
