-- ===== src/BuildGraph/Prompt.antt =====
-- A graph that `BuildGraph` makes is valid and gives its prompt back.
use aigo.Base.{String, ◌≡◌, ◌≢◌, false, none, some, [], ◌∷◌, arith}
use aigo.Base.Assoc.{get}
use aigo.Base.Text.{is_blank}
use aigo.Errors.{ok}
use aigo.Workflow.{Graph, Node, validate}
use aigo.Workflow.Validity.{validate_iff}
use aigo.Resolve.{extract_prompt}
use aigo.Resolve.Prompts.{extract_prompt-one}
use aigo.Task.{AgentTask}
use aigo.BuildGraph.{build_graph}
use aigo.BuildGraph.Nodes.{built}

has_node-nonempty : (g : Graph) (id : String) (n : Node) → get g id ≡ some n → g ≢ []
unfolding get
has_node-nonempty [] id n h = absurd (ground arith)
has_node-nonempty (e ∷ g) id n h = λ p. ground arith

-- `Validate` accepts every graph that `BuildGraph` returns, whatever the task.
pub validate-build_graph : (t : AgentTask) → validate (build_graph t) ≡ none
unfolding build_graph
validate-build_graph t =
    let h = built t in (validate_iff (build_graph t)).1 (has_node-nonempty _ "1" _ h.shown, h.named)

-- `ExtractPrompt` reads from the graph of a task the prompt of the task, if that is not blank: no
-- other option of the task can shadow it.
pub extract_prompt-build_graph :
    (t : AgentTask)
    → is_blank t.prompt ≡ false
    → extract_prompt (build_graph t) ≡ some (ok t.prompt)
unfolding build_graph
extract_prompt-build_graph t b =
    let h = built t in extract_prompt-one (build_graph t) "1" t.prompt h.shown h.only b
