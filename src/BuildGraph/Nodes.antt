-- ===== src/BuildGraph/Nodes.antt =====
-- Every section of `BuildGraph` adds nodes under new ids and keeps the prompt node.
use text.Mathlib.TextEquality.{eq_iff}
use aigo.Base.{
  ℕ, suc, ◌<◌, String, ◌≡◌, refl, sym, ap, ap₂, ◌∙◌, Bool, true, false, Option, none, some, List,
  [], ◌∷◌, ◌++◌, str_eq, if◌then◌else◌, arith, Bool-cases, inl, inr,
}
use aigo.Base.Assoc.{Map, get, has, keys, get-put, has-put}
use aigo.Base.Decimal.{itoa, is_blank-itoa}
use aigo.Base.Text.{is_blank, is_space}
use aigo.Workflow.{Value, Node}
use aigo.Workflow.Validity.{IsNamed}
use aigo.Task.{ReferenceAsset, AgentTask, AudioMixOptions, VoiceDesignOptions, reference_type_video}
use aigo.BuildGraph.Ids.{
  prompt_class, numbers, IsOther, keys-put_new, put-IsNamed, itoa-ne, itoa-one, one-ne-itoa,
  itoa-ne-one, only-put,
}
use aigo.BuildGraph.{
  Builder, add_node, add_if, add_options, start, add_references, add_mix, add_voice_design,
  visual_part, media_part,
}

pub record IsBuilt (text : String) (b : Builder) : Type 0 where
  pub count : ℕ
  pub next_id : b.next ≡ suc count
  pub started : 0 < count
  pub ids : keys b.graph ≡ numbers count
  pub fresh : (m : ℕ) → count < m → has b.graph (itoa m) ≡ false
  pub named : IsNamed b.graph
  pub shown :
      get b.graph "1"
      ≡ some (record { class_type = prompt_class; inputs = ("text", Value.str text) ∷ [] })
  pub only :
      (id : String) (n : Node) → get b.graph id ≡ some n → n.class_type ≡ prompt_class → id ≡ "1"

module _ (text class_type : String) (inputs : Map Value) (other : IsOther class_type) where
  -- The node that is added.
  abbrev added : Node
  added = record { class_type = class_type; inputs = inputs }

  pub add_node-IsBuilt :
      (b : Builder) → IsBuilt text b → IsBuilt text (add_node class_type inputs b)
  unfolding add_node numbers
  add_node-IsBuilt b h =
      let new : has b.graph (itoa b.next) ≡ false =
        rw h.next_id (h.fresh (suc h.count) (omega arith)) in
      record {
        count = suc h.count;
        next_id = ap suc h.next_id;
        started = omega arith;
        ids =
            keys-put_new b.graph (itoa b.next) added new
            ∙ ap₂ (λ ks n. ks ++ itoa n ∷ []) h.ids h.next_id;
        fresh = λ m l.
            has-put b.graph (itoa b.next) (itoa m) added
            ∙ rw h.next_id (rw (itoa-ne (suc h.count) m l) (h.fresh m (omega arith)));
        named =
            put-IsNamed b.graph (itoa b.next) added h.named (is_blank-itoa b.next) other.readable;
        shown =
            get-put b.graph (itoa b.next) "1" added
            ∙ rw (one-ne-itoa b.next (omega (arith, h.next_id, h.started))) h.shown;
        only = only-put b.graph (itoa b.next) added other.other h.only;
      }

  pub add_if-IsBuilt :
      (test : Bool) (b : Builder) → IsBuilt text b → IsBuilt text (add_if test class_type inputs b)
  unfolding add_if
  add_if-IsBuilt true b h = add_node-IsBuilt b h
  add_if-IsBuilt false b h = h

pub add_options-IsBuilt :
    (text class_type : String) (opts : Map Value) (b : Builder)
    → IsOther class_type
    → IsBuilt text b
    → IsBuilt text (add_options class_type opts b)
unfolding add_options
add_options-IsBuilt text class_type [] b other h = h
add_options-IsBuilt text class_type (o ∷ opts) b other h =
    add_node-IsBuilt text class_type (o ∷ opts) other b h

pub reference_class-IsOther : (b : Bool) → IsOther (if b then "LoadVideo" else "LoadImage")
unfolding is_blank is_space
reference_class-IsOther true = record { readable = refl; other = refl }
reference_class-IsOther false = record { readable = refl; other = refl }

add_references-IsBuilt :
    (text : String) (rs : List ReferenceAsset) (b : Builder)
    → IsBuilt text b
    → IsBuilt text (add_references rs b)
unfolding add_references
add_references-IsBuilt text [] b h = h
add_references-IsBuilt text (r ∷ rs) b h = add_references-IsBuilt text rs _ (
    if_url-IsBuilt (str_eq r.url "") (
      add_node-IsBuilt text _ (("url", Value.str r.url) ∷ [])
        (reference_class-IsOther (str_eq r.kind reference_type_video)) b h))
  where
    if_url-IsBuilt :
        (t : Bool) {b' : Builder} → IsBuilt text b' → IsBuilt text (if t then b else b')
    if_url-IsBuilt true k = h
    if_url-IsBuilt false k = k

pub start-IsBuilt : (t : AgentTask) → IsBuilt t.prompt (start t)
unfolding start has get numbers is_blank is_space
start-IsBuilt t = record {
  count = 1;
  next_id = refl;
  started = omega arith;
  ids = ap (λ k. k ∷ []) (sym itoa-one);
  fresh = λ m l. rw (itoa-ne-one m l) refl;
  named = ((refl, refl), tt);
  shown = refl;
  only = λ id n f c. elim (Bool-cases (str_eq "1" id)) [
    | inl e ↦ sym ((eq_iff "1" id).0 e)
    | inr e ↦ absurd (ground (arith, e, f))
  ];
}

module _ (text : String) (b : Builder) (h : IsBuilt text b) where
  pub add_mix-IsBuilt : (mix : Option AudioMixOptions) → IsBuilt text (add_mix mix b)
  unfolding add_mix is_blank is_space
  add_mix-IsBuilt none = h
  add_mix-IsBuilt (some mix) =
      add_if-IsBuilt text "AudioMixOptions" _ (record { readable = refl; other = refl }) _ b h

  pub add_voice_design-IsBuilt :
      (vd : Option VoiceDesignOptions) → IsBuilt text (add_voice_design vd b)
  unfolding add_voice_design is_blank is_space
  add_voice_design-IsBuilt none = h
  add_voice_design-IsBuilt (some vd) =
      add_if-IsBuilt text "VoiceDesignInput" _ (record { readable = refl; other = refl }) _ b h

visual_part-IsBuilt : (t : AgentTask) → IsBuilt t.prompt (visual_part t)
unfolding visual_part is_blank is_space
visual_part-IsBuilt t =
    add_options-IsBuilt t.prompt "VideoOptions" _ _ (record { readable = refl; other = refl })
      (add_options-IsBuilt t.prompt "ImageOptions" _ _ (record { readable = refl; other = refl })
        (add_if-IsBuilt t.prompt "NegativePrompt" _ (record { readable = refl; other = refl }) _ _
          (add_if-IsBuilt t.prompt "EmptyLatentImage" _ (record { readable = refl; other = refl }) _
            _ (start-IsBuilt t))))

media_part-IsBuilt :
    (text : String) (t : AgentTask) (b : Builder) → IsBuilt text b → IsBuilt text (media_part t b)
unfolding media_part is_blank is_space
media_part-IsBuilt text t b h =
    add_voice_design-IsBuilt text _
      (add_options-IsBuilt text "SearchOptions" _ _ (record { readable = refl; other = refl })
        (add_mix-IsBuilt text _
          (add_options-IsBuilt text "SFXOptions" _ _ (record { readable = refl; other = refl })
            (add_options-IsBuilt text "MusicOptions" _ _ (record { readable = refl; other = refl })
              (add_options-IsBuilt text "AudioOptions" _ _
                (record { readable = refl; other = refl })
                (add_if-IsBuilt text "LoadAudio" _ (record { readable = refl; other = refl }) _ _
                  (add_references-IsBuilt text t.references b h)))))
          t.audio_mix))
      t.voice_design

-- What `BuildGraph` returns.
pub built : (t : AgentTask) → IsBuilt t.prompt (media_part t (visual_part t))
built t = media_part-IsBuilt t.prompt t (visual_part t) (visual_part-IsBuilt t)
