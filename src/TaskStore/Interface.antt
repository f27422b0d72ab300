-- ===== src/TaskStore/Interface.antt =====
-- The `TaskStore` interface, with the laws that the client relies on, and the file store as an
-- implementation of it.
use aigo.Base.{String, ◌≡◌, Option, none, some, List, str_eq, if◌then◌else◌}
use aigo.Errors.{Error, Outcome, ok}
use aigo.TaskStore.{TaskRecord, File, System, save, load, all_records}
use aigo.TaskStore.FileLaws.{load-save, save-err, load-id}

-- `TaskStore` over a state `S` of the store. Each call is given what the system answers in it.
pub record TaskStore : Type 1 where
  pub S : Type 0
  pub save : System → S → TaskRecord → Option Error × S
  pub load : System → S → String → Outcome TaskRecord
  pub all : System → S → Outcome (List TaskRecord)
  -- A saved record is read back, up to the time of the save, and other records stay.
  pub load-save :
      (sys later : System) (s : S) (r : TaskRecord) (id : String)
      → (save sys s r).0 ≡ none
      → later.lock_error ≡ none
      → load later (save sys s r).1 id
        ≡ (if str_eq r.id id then ok (record r { updated_at = sys.now }) else load later s id)
  -- A failed save changes nothing.
  pub save-err :
      (sys : System) (s : S) (r : TaskRecord) (e : Error)
      → (save sys s r).0 ≡ some e
      → (save sys s r).1 ≡ s
  -- The record that is loaded under an id has the id.
  pub load-id :
      (sys : System) (s : S) (id : String) (r : TaskRecord) → load sys s id ≡ ok r → r.id ≡ id

-- `FileTaskStore`
abbrev pub file_task_store : TaskStore
file_task_store = record {
  S = File;
  save = save;
  load = load;
  all = all_records;
  load-save = load-save;
  save-err = save-err;
  load-id = load-id;
}
