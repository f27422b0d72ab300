-- ===== src/BuildGraph/Numbered.antt =====
-- `BuildGraph` of client.go: the graph has the nodes of the sections, under ids without a gap.
use mathlib.Core.List.{append-nil, append_assoc}
use aigo.Base.{
  suc, subst, String, ◌≡◌, refl, sym, ap, ◌∙◌, Bool, true, false, not, Option, none, some, List, [],
  ◌∷◌, ◌++◌, length, str_eq, if◌then◌else◌, arith,
}
use aigo.Base.Assoc.{Map, put, has, keys}
use aigo.Base.Decimal.{itoa}
use aigo.Workflow.{Value, Node, Graph}
use aigo.Task.{ReferenceAsset, AgentTask, VoiceDesignOptions, AudioMixOptions, reference_type_video}
use aigo.BuildGraph.{
  Builder, add_node, add_if, add_options, start, add_references, add_mix, add_voice_design,
  visual_part, media_part, build_graph,
}
use aigo.Base.Text.{is_blank, is_space}
use aigo.BuildGraph.Ids.{numbers, length-numbers, IsOther}
use aigo.BuildGraph.Nodes.{IsBuilt, built, add_node-IsBuilt, reference_class-IsOther, start-IsBuilt}
use aigo.BuildGraph.Sections.{
  nodes_of, node, node_if, node_of, nodes_of_references, node_of_mix, node_of_design, visual_nodes,
  media_nodes,
}

nodes-put_new :
    (g : Graph) (k : String) (v : Node)
    → has g k ≡ false
    → nodes_of (put g k v) ≡ nodes_of g ++ v ∷ []
unfolding has put
nodes-put_new [] k v h = refl
nodes-put_new ((j, n) ∷ g) k v h = ground (arith, nodes-put_new g k v)

-- The graph has these nodes, in this order.
record Lists (text : String) (ns : List Node) (b : Builder) : Type 0 where
  is_built : IsBuilt text b
  lists : nodes_of b.graph ≡ ns

module _ (text : String) where
  add_node-Lists :
      (class_type : String) (inputs : Map Value) (other : IsOther class_type) (ns : List Node)
      (b : Builder)
      → Lists text ns b
      → Lists text (ns ++ node class_type inputs ∷ []) (add_node class_type inputs b)
  unfolding add_node
  add_node-Lists class_type inputs other ns b h = record {
    is_built = add_node-IsBuilt text class_type inputs other b h.is_built;
    lists =
        nodes-put_new b.graph (itoa b.next) (node class_type inputs)
          (rw h.is_built.next_id (h.is_built.fresh (suc h.is_built.count) (omega arith)))
        ∙ ap (λ ms. ms ++ node class_type inputs ∷ []) h.lists;
  }

  no_node-Lists : (ns : List Node) (b : Builder) → Lists text ns b → Lists text (ns ++ []) b
  no_node-Lists ns b h = subst (λ ms. Lists text ms b) (sym (append-nil ns)) h

  add_if-Lists :
      (test : Bool) (class_type : String) (inputs : Map Value) (other : IsOther class_type)
      (ns : List Node) (b : Builder)
      → Lists text ns b
      → Lists text (ns ++ node_if test class_type inputs) (add_if test class_type inputs b)
  unfolding add_if
  add_if-Lists true class_type inputs other ns b h = add_node-Lists class_type inputs other ns b h
  add_if-Lists false class_type inputs other ns b h = no_node-Lists ns b h

  add_options-Lists :
      (class_type : String) (opts : Map Value) (other : IsOther class_type) (ns : List Node)
      (b : Builder)
      → Lists text ns b
      → Lists text (ns ++ node_of class_type opts) (add_options class_type opts b)
  unfolding add_options
  add_options-Lists class_type [] other ns b h = no_node-Lists ns b h
  add_options-Lists class_type (o ∷ opts) other ns b h =
      add_node-Lists class_type (o ∷ opts) other ns b h

  add_reference-Lists :
      (t : Bool) (class_type : String) (inputs : Map Value) (other : IsOther class_type)
      (ns : List Node) (b : Builder)
      → Lists text ns b
      → Lists text
          (ns ++ node_if (not t) class_type inputs)
          (if t then b else add_node class_type inputs b)
  add_reference-Lists true class_type inputs other ns b h = no_node-Lists ns b h
  add_reference-Lists false class_type inputs other ns b h =
      add_node-Lists class_type inputs other ns b h

  add_references-Lists :
      (rs : List ReferenceAsset) (ns : List Node) (b : Builder)
      → Lists text ns b
      → Lists text (ns ++ nodes_of_references rs) (add_references rs b)
  unfolding add_references
  add_references-Lists [] ns b h = no_node-Lists ns b h
  add_references-Lists (r ∷ rs) ns b h =
      subst (λ ms. Lists text ms (add_references (r ∷ rs) b))
        (append_assoc ns _ (nodes_of_references rs))
        (add_references-Lists rs _ _ (
          add_reference-Lists (str_eq r.url "") _ (("url", Value.str r.url) ∷ [])
            (reference_class-IsOther (str_eq r.kind reference_type_video)) ns b h))

  add_mix-Lists :
      (mix : Option AudioMixOptions) (ns : List Node) (b : Builder)
      → Lists text ns b
      → Lists text (ns ++ node_of_mix mix) (add_mix mix b)
  unfolding add_mix is_blank is_space
  add_mix-Lists none ns b h = no_node-Lists ns b h
  add_mix-Lists (some mix) ns b h =
      add_if-Lists _ "AudioMixOptions" _ (record { readable = refl; other = refl }) ns b h

  add_voice_design-Lists :
      (vd : Option VoiceDesignOptions) (ns : List Node) (b : Builder)
      → Lists text ns b
      → Lists text (ns ++ node_of_design vd) (add_voice_design vd b)
  unfolding add_voice_design is_blank is_space
  add_voice_design-Lists none ns b h = no_node-Lists ns b h
  add_voice_design-Lists (some vd) ns b h =
      add_if-Lists _ "VoiceDesignInput" _ (record { readable = refl; other = refl }) ns b h

  media_part-Lists :
      (t : AgentTask) (ns : List Node) (b : Builder)
      → Lists text ns b
      → nodes_of (media_part t b).graph ≡ ns ++ media_nodes t
  unfolding media_part is_blank is_space
  media_part-Lists t ns b h =
      let one = add_references-Lists t.references ns b h in
      let two = add_if-Lists _ "LoadAudio" _ (record { readable = refl; other = refl }) _ _ one in
      let three =
        add_options-Lists "AudioOptions" _ (record { readable = refl; other = refl }) _ _ two in
      let four =
        add_options-Lists "MusicOptions" _ (record { readable = refl; other = refl }) _ _ three in
      let five =
        add_options-Lists "SFXOptions" _ (record { readable = refl; other = refl }) _ _ four in
      let six = add_mix-Lists t.audio_mix _ _ five in
      let seven =
        add_options-Lists "SearchOptions" _ (record { readable = refl; other = refl }) _ _ six in
      (add_voice_design-Lists t.voice_design _ _ seven).lists ∙ simp append_assoc refl

visual_part-Lists : (t : AgentTask) → Lists t.prompt (visual_nodes t) (visual_part t)
unfolding visual_part start is_blank is_space
visual_part-Lists t =
    let zeroth : Lists t.prompt (node "CLIPTextEncode" (("text", Value.str t.prompt) ∷ []) ∷ [])
        (start t) =
      record { is_built = start-IsBuilt t; lists = refl } in
    let one =
      add_if-Lists t.prompt _ "EmptyLatentImage" _ (record { readable = refl; other = refl }) _ _
        zeroth in
    let two =
      add_if-Lists t.prompt _ "NegativePrompt" _ (record { readable = refl; other = refl }) _ _
        one in
    let three =
      add_options-Lists t.prompt "ImageOptions" _ (record { readable = refl; other = refl }) _ _
        two in
    let four =
      add_options-Lists t.prompt "VideoOptions" _ (record { readable = refl; other = refl }) _ _
        three in
    subst (λ ms. Lists t.prompt ms (visual_part t)) (simp append_assoc refl) four

length-keys : (g : Graph) → length (keys g) ≡ length (nodes_of g)
length-keys [] = refl
length-keys (e ∷ g) = ap suc (length-keys g)

-- The nodes of the graph that `BuildGraph` returns are the prompt and one node for each section that
-- the task asks for, with its class type and inputs, in the order of the sections; their ids are "1",
-- "2", … in this order, so no section overwrites the node of another.
pub build_graph_lem :
    (t : AgentTask)
    → (nodes_of (build_graph t) ≡ visual_nodes t ++ media_nodes t)
      × (keys (build_graph t) ≡ numbers (length (visual_nodes t ++ media_nodes t)))
unfolding build_graph
build_graph_lem t =
    let h = built t in
    let nodes =
      media_part-Lists t.prompt t (visual_nodes t) (visual_part t) (visual_part-Lists t) in
    let counted : h.count ≡ length (visual_nodes t ++ media_nodes t) =
      sym (length-numbers h.count)
      ∙ ap length (sym h.ids)
      ∙ length-keys (build_graph t)
      ∙ ap length nodes in
    (nodes, h.ids ∙ ap numbers counted)
