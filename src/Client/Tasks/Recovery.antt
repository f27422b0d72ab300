-- ===== src/Client/Tasks/Recovery.antt =====
-- A task that was submitted can be resumed, and a task is resumed to an end only once.
use aigo.Base.{ℕ, String, ◌≡◌, refl, sym, ap, ◌∙◌, Bool, none, some}
use aigo.Base.Assoc.{get, str_eq_refl}
use aigo.Errors.{Outcome, ok}
use aigo.Workflow.{Graph}
use aigo.Engine.{Engine, EngineResult, OutputKind}
use aigo.TaskStore.{TaskRecord, System, status_pending}
use aigo.TaskStore.Interface.{TaskStore}
use aigo.Client.{Client}
use aigo.Client.Execute.{Result, Executed, execute}
use aigo.Client.Tasks.{
  TaskEnv, Stored, submitted_record, resumed, task_id_reply, after_execute, submit, conclude,
  conclusion, call_resumer, resume_with, resume_record, resume,
}

module _ {W : Type 0} (store : TaskStore) (te : TaskEnv W) (c : Client W) where
  -- What a later load finds of a record that was saved.
  pub load-saved :
      (sys later : System) (s : store.S) (rec : TaskRecord)
      → (store.save sys s rec).0 ≡ none
      → later.lock_error ≡ none
      → store.load later (store.save sys s rec).1 rec.id ≡ ok (record rec { updated_at = sys.now })
  load-saved sys later s rec h l =
      store.load-save sys later s rec rec.id h l ∙ rw (str_eq_refl rec.id)

  -- The record that `Submit` makes in world `w`.
  abbrev pub record_in : W → String → Result → TaskRecord
  record_in w name r = submitted_record (te.new_task_id w) (te.env.now w) name r

  -- The answer that `Submit` saved nothing wrong.
  abbrev pub IsSaved : W → store.S → TaskRecord → Type 0
  IsSaved w s rec = (store.save (te.sys w) s rec).0 ≡ none

  after_execute-pending :
      (name : String) (r : Result) (w : W) (s : store.S)
      → r.kind ≡ OutputKind.plain_text
      → IsSaved w s (record_in w name r)
      → after_execute store te c name (ok r) w s ≡ record {
        outcome = ok (te.new_task_id w);
        world = w;
        store = some (store.save (te.sys w) s (record_in w name r)).1;
      }
  unfolding after_execute task_id_reply submitted_record
  after_execute-pending name r w s k saved = rw saved (rw k)

  pending_fields :
      (id : String) (now : ℕ) (name : String) (r : Result)
      → r.kind ≡ OutputKind.plain_text
      → ((submitted_record id now name r).id ≡ id)
        × ((submitted_record id now name r).status ≡ status_pending)
        × ((submitted_record id now name r).engine_name ≡ name)
        × ((submitted_record id now name r).remote_id ≡ r.value)
  unfolding submitted_record
  pending_fields id now name r k = rw k (refl, refl, refl, refl)

  -- A pending record is handed to its engine.
  pub resume_record-pending :
      (w w' : W) (s : store.S) (rec : TaskRecord) (e : Engine W)
      (f : String → W → Outcome EngineResult × W) (o : Outcome EngineResult)
      → rec.status ≡ status_pending
      → get c.engines rec.engine_name ≡ some e
      → e.resume ≡ some f
      → f rec.remote_id w ≡ (o, w')
      → resume_record store te c w s (ok rec) ≡ conclude store te c rec o w' s
  unfolding resume_record
  resume_record-pending w w' s rec e f o p found can answer =
      rw p (rw (found, resume_with) (rw (can, call_resumer) (rw answer)))

  submit-pending :
      (name : String) (g : Graph) (watching : Bool) (w : W) (s : store.S) (x : Executed W)
      (r : Result)
      → execute te.env c name g watching w ≡ x
      → x.outcome ≡ ok r
      → r.kind ≡ OutputKind.plain_text
      → IsSaved x.world s (record_in x.world name r)
      → submit store te c name g watching w (some s) ≡ record {
        outcome = ok (te.new_task_id x.world);
        world = x.world;
        store = some (store.save (te.sys x.world) s (record_in x.world name r)).1;
      }
  unfolding submit
  submit-pending name g watching w s x r run h k saved =
      rw run (rw h (after_execute-pending name r x.world s k saved))

  conclude-ok :
      (rec : TaskRecord) (er : EngineResult) (w : W) (s : store.S)
      → (conclude store te c rec (ok er) w s).outcome
        ≡ ok (resumed rec.engine_name er.value er.kind)
  unfolding conclude conclusion
  conclude-ok rec er w s = refl

  resume-loaded :
      (id name : String) (w w' : W) (s : store.S) (rec : TaskRecord) (e : Engine W)
      (f : String → W → Outcome EngineResult × W) (er : EngineResult)
      → store.load (te.sys w) s id ≡ ok rec
      → rec.status ≡ status_pending
      → get c.engines rec.engine_name ≡ some e
      → e.resume ≡ some f
      → f rec.remote_id w ≡ (ok er, w')
      → (resume store te c id w (some s)).outcome ≡ ok (resumed rec.engine_name er.value er.kind)
  unfolding resume
  resume-loaded id name w w' s rec e f er loaded p found can answer =
      ap (λ o. (resume_record store te c w s o).outcome) loaded
      ∙ ap (λ (t : Stored W store.S Result). t.outcome)
          (resume_record-pending w w' s rec e f (ok er) p found can answer)
      ∙ conclude-ok rec er w' s

  -- A task that `Submit` stored as pending is resumed with the remote id that the engine returned,
  -- in any later world: if the store then gives its lock, the engine is registered and its `Resume`
  -- answers, then `Submit` has returned a task id, and `Resume` of that id gives the answer.
  pub resume-submit :
      (name : String) (g : Graph) (watching : Bool) (w w₂ w₃ : W) (s : store.S) (x : Executed W)
      (r : Result) (e : Engine W) (f : String → W → Outcome EngineResult × W) (er : EngineResult)
      → execute te.env c name g watching w ≡ x
      → x.outcome ≡ ok r
      → r.kind ≡ OutputKind.plain_text
      → IsSaved x.world s (record_in x.world name r)
      → (te.sys w₂).lock_error ≡ none
      → get c.engines name ≡ some e
      → e.resume ≡ some f
      → f r.value w₂ ≡ (ok er, w₃)
      → ((submit store te c name g watching w (some s)).outcome ≡ ok (te.new_task_id x.world))
        × ((resume store te c
              (te.new_task_id x.world)
              w₂
              (submit store te c name g watching w (some s)).store).outcome
            ≡ ok (resumed name er.value er.kind))
  resume-submit name g watching w w₂ w₃ s x r e f er run h k saved lock found can answer =
      let p = submit-pending name g watching w s x r run h k saved in
      let rec = record_in x.world name r in
      let s' = (store.save (te.sys x.world) s rec).1 in
      let (is_id, is_pending, is_name, is_remote) =
        pending_fields (te.new_task_id x.world) (te.env.now x.world) name r k in
      let loaded = load-saved (te.sys x.world) (te.sys w₂) s rec saved lock in
      (
        ap (λ (t : Stored W store.S String). t.outcome) p,
        ap
              (λ (t : Stored W store.S String).
                (resume store te c (te.new_task_id x.world) w₂ t.store).outcome)
              p
            ∙ resume-loaded (te.new_task_id x.world) name w₂ w₃ s'
                (record rec { updated_at = (te.sys x.world).now }) e f er
                (ap (store.load (te.sys w₂) s') (sym is_id) ∙ loaded) is_pending
                (ap (get c.engines) is_name ∙ found) can
                (ap (λ (i : String). f i w₂) is_remote ∙ answer)
            ∙ ap (λ (n : String). ok (resumed n er.value er.kind)) is_name,
      )
