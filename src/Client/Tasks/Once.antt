-- ===== src/Client/Tasks/Once.antt =====
-- A task that was resumed to an end is not resumed again.
use aigo.Base.{ℕ, String, ◌≡◌, refl, sym, ap, ◌∙◌, none, some}
use aigo.Base.Assoc.{get}
use aigo.Errors.{Error, Outcome, ok, err}
use aigo.Engine.{Engine, EngineResult}
use aigo.TaskStore.{TaskRecord, status_pending}
use aigo.TaskStore.Interface.{TaskStore}
use aigo.Client.{Client}
use aigo.Client.Execute.{Result}
use aigo.Client.Tasks.{TaskEnv, Stored, resumed, concluded, conclude, resume_record, resume}
use aigo.Client.Tasks.Recovery.{load-saved, resume_record-pending}

module _ {W : Type 0} (store : TaskStore) (te : TaskEnv W) (c : Client W) where
  -- What a finished task answers: the stored result, or that it failed before.
  abbrev pub replay : String → Outcome EngineResult → Outcome Result
  replay name (ok er) = ok (resumed name er.value er.kind)
  replay name (err e) = err (Error.wrap (te.text e) (Error.plain "aigo: task previously failed"))

  -- A record that was concluded is answered from the store.
  resume_record-concluded :
      (rec : TaskRecord) (o : Outcome EngineResult) (w w' : W) (s : store.S) (now : ℕ)
      → resume_record store te c w s
          (ok (record (concluded store te c rec o w') { updated_at = now }))
        ≡ record { outcome = replay rec.engine_name o; world = w; store = some s }
  unfolding resume_record concluded
  resume_record-concluded rec (ok er) w w' s now = refl
  resume_record-concluded rec (err e) w w' s now = refl

  concluded-id :
      (rec : TaskRecord) (o : Outcome EngineResult) (w : W)
      → (concluded store te c rec o w).id ≡ rec.id
  unfolding concluded
  concluded-id rec (ok er) w = refl
  concluded-id rec (err e) w = refl

  resume-conclude :
      (id : String) (w w' : W) (s : store.S) (rec : TaskRecord) (e : Engine W)
      (f : String → W → Outcome EngineResult × W) (o : Outcome EngineResult)
      → store.load (te.sys w) s id ≡ ok rec
      → rec.status ≡ status_pending
      → get c.engines rec.engine_name ≡ some e
      → e.resume ≡ some f
      → f rec.remote_id w ≡ (o, w')
      → resume store te c id w (some s) ≡ conclude store te c rec o w' s
  unfolding resume
  resume-conclude id w w' s rec e f o loaded p found can answer =
      ap (resume_record store te c w s) loaded
      ∙ resume_record-pending store te c w w' s rec e f o p found can answer

  conclude-store :
      (rec : TaskRecord) (o : Outcome EngineResult) (w : W) (s : store.S)
      → (conclude store te c rec o w s).store
        ≡ some (store.save (te.sys w) s (concluded store te c rec o w)).1
  unfolding conclude
  conclude-store rec o w s = refl

  resume-some :
      (id : String) (w : W) (s : store.S) (rec : TaskRecord)
      → store.load (te.sys w) s id ≡ ok rec
      → resume store te c id w (some s) ≡ resume_record store te c w s (ok rec)
  unfolding resume
  resume-some id w s rec h = rw h

  -- Once `Resume` has had an answer from the engine of a pending task, good or bad, and has saved
  -- it, a second `Resume` in any later world in which the store gives its lock answers from the store:
  -- it gives the same result, or the error that the task failed before, and changes neither the world
  -- nor the store.
  pub resume-resume :
      (id : String) (w w' w₂ : W) (s : store.S) (rec : TaskRecord) (e : Engine W)
      (f : String → W → Outcome EngineResult × W) (o : Outcome EngineResult)
      → store.load (te.sys w) s id ≡ ok rec
      → rec.status ≡ status_pending
      → get c.engines rec.engine_name ≡ some e
      → e.resume ≡ some f
      → f rec.remote_id w ≡ (o, w')
      → (store.save (te.sys w') s (concluded store te c rec o w')).0 ≡ none
      → (te.sys w₂).lock_error ≡ none
      → resume store te c id w₂ (resume store te c id w (some s)).store ≡ record {
        outcome = replay rec.engine_name o;
        world = w₂;
        store = (resume store te c id w (some s)).store;
      }
  resume-resume id w w' w₂ s rec e f o loaded p found can answer saved lock =
      let done = concluded store te c rec o w' in
      let s' = (store.save (te.sys w') s done).1 in
      let kept : (resume store te c id w (some s)).store ≡ some s' =
        ap (λ (t : Stored W store.S Result). t.store)
          (resume-conclude id w w' s rec e f o loaded p found can answer)
        ∙ conclude-store rec o w' s in
      let is_id : done.id ≡ id = concluded-id rec o w' ∙ store.load-id (te.sys w) s id rec loaded in
      let again : store.load (te.sys w₂) s' id ≡ ok (record done { updated_at = (te.sys w').now }) =
        ap (store.load (te.sys w₂) s') (sym is_id)
        ∙ load-saved store te c (te.sys w') (te.sys w₂) s done saved lock in
      rw kept (
        resume-some id w₂ s' (record done { updated_at = (te.sys w').now }) again
        ∙ resume_record-concluded rec o w₂ w' s' (te.sys w').now)
