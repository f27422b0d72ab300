-- ===== src/TaskStore.antt =====
-- taskstore.go: task records in one JSON file, rewritten as a whole under a lock.
pub mod Records
pub mod FileLaws
pub mod Interface
pub mod Atomic
pub mod Purging
use aigo.Base.{
  ℕ, ◌+◌, ◌<◌, String, Bool, true, false, not, ◌||◌, Option, none, some, List, [], ◌∷◌, select,
  some_of, ltb, str_eq, if◌then◌else◌,
}
use aigo.Base.Int.{ℤ, pos, negsuc}
use aigo.Errors.{Error, Outcome, ok, err, ◌>>=◌}
use aigo.Engine.{OutputKind}

abbrev pub status_pending : String
status_pending = "pending"

abbrev pub status_completed : String
status_completed = "completed"

abbrev pub status_failed : String
status_failed = "failed"

-- `TaskRecord`; times are nanoseconds.
pub record TaskRecord : Type 0 where
  pub id : String
  pub engine_name : String
  pub remote_id : String
  pub status : String
  pub created_at : ℕ
  pub updated_at : ℕ
  pub result_val : String
  pub result_kind : OutputKind
  pub err_msg : String

abbrev pub task_not_found : String → Error
task_not_found id = Error.wrap id (Error.plain "aigo: task not found")

-- The task file: absent, empty, not readable, not decodable, or the encoding of records.
pub data File : Type 0 where
  missing empty : File
  unreadable garbled : Error → File
  records : List TaskRecord → File

-- What the operating system answers in one call: whether the lock, the encoding, the write of the
-- temporary file and the rename fail, what a write that fails leaves in its file, and the time.
pub record System : Type 0 where
  pub lock_error : Option Error
  pub encode_error : Option Error
  pub write_error : Option Error
  pub torn : File
  pub rename_error : Option Error
  pub now : ℕ

-- The files at `s.path` and at `s.path + ".tmp"`.
pub record Disk : Type 0 where
  pub main : File
  pub tmp : File

-- `readAll`
unfoldable pub read_all : File → Outcome (List TaskRecord)
read_all File.missing = ok []
read_all File.empty = ok []
read_all (File.unreadable e) = err (Error.wrap "aigo: read task store" e)
read_all (File.garbled e) = err (Error.wrap "aigo: decode task store" e)
read_all (File.records rs) = ok rs

-- `os.WriteFile(tmp, data)` truncates the temporary file; a failure leaves what it wrote.
unfoldable pub write_tmp : System → List TaskRecord → Disk → Option Error × Disk
write_tmp sys rs d = elim sys.write_error [
  | none ↦ (none, record d { tmp = File.records rs })
  | some e ↦ (some (Error.wrap "aigo: write task store tmp" e), record d { tmp = sys.torn })
]

-- `os.Remove(tmp)`
unfoldable pub remove_tmp : Disk → Disk
remove_tmp d = record d { tmp = File.missing }

-- `os.Rename(tmp, s.path)`; the temporary file is removed if it fails.
unfoldable pub rename_tmp : System → Disk → Option Error × Disk
unfolding remove_tmp
rename_tmp sys d = elim sys.rename_error [
  | none ↦ (none, record { main = d.tmp; tmp = File.missing })
  | some e ↦ (some (Error.wrap "aigo: rename task store" e), remove_tmp d)
]

unfoldable pub after_write : System → Option Error × Disk → Option Error × Disk
unfolding rename_tmp
after_write sys (some e, d) = (some e, d)
after_write sys (none, d) = rename_tmp sys d

-- `writeAll`
unfoldable pub write_all : System → Disk → List TaskRecord → Option Error × Disk
unfolding write_tmp after_write
write_all sys d rs =
    let written = after_write sys (write_tmp sys rs d) in
    elim sys.encode_error [
      | none ↦ written
      | some e ↦ (some (Error.wrap "aigo: encode task store" e), d)
    ]

-- A change of the records under the exclusive lock, as `Save`, `Delete` and `Purge` make it.
unfoldable pub rewrite_records :
    System
    → Disk
    → (List TaskRecord → List TaskRecord)
    → Outcome (List TaskRecord)
    → Option Error × Disk
unfolding write_all
rewrite_records sys d change (err e) = (some e, d)
rewrite_records sys d change (ok rs) = write_all sys d (change rs)

unfoldable pub rewrite : System → Disk → (List TaskRecord → List TaskRecord) → Option Error × Disk
unfolding rewrite_records
rewrite sys d change = elim sys.lock_error [
  | none ↦ rewrite_records sys d change (read_all d.main)
  | some e ↦ (some (Error.wrap "aigo: lock task store" e), d)
]

-- The calls read the file at `s.path` only. A temporary file that an earlier call left is
-- truncated before it is used, so the calls are started without one.
unfoldable pub locked : System → File → (List TaskRecord → List TaskRecord) → Option Error × File
unfolding rewrite
locked sys f change =
    let r = rewrite sys (record { main = f; tmp = File.missing }) change in (r.0, r.1.main)

-- The loop of `Save`: the first record with the id is replaced, or the record is appended.
unfoldable pub upsert : TaskRecord → List TaskRecord → List TaskRecord
upsert r [] = r ∷ []
upsert r (q ∷ rs) = if str_eq q.id r.id then r ∷ rs else q ∷ upsert r rs

-- `Save`
unfoldable pub save : System → File → TaskRecord → Option Error × File
unfolding locked
save sys f r = locked sys f (upsert (record r { updated_at = sys.now }))

-- `Delete`
unfoldable pub delete : System → File → String → Option Error × File
unfolding locked
delete sys f id = locked sys f (select (λ r. not (str_eq r.id id)))

-- `r.UpdatedAt.After(time.Now().Add(-maxAge))`
unfoldable pub is_recent : ℕ → ℤ → ℕ → Bool
is_recent now (pos age) updated = ltb now (updated + age)
is_recent now (negsuc n) updated = ltb (now + n + 1) updated

-- The records that `Purge` keeps.
unfoldable pub is_kept : ℕ → ℤ → TaskRecord → Bool
unfolding is_recent
is_kept now max_age r = str_eq r.status status_pending || is_recent now max_age r.updated_at

-- `Purge`
unfoldable pub purge : System → File → ℤ → Option Error × File
unfolding locked
purge sys f max_age = locked sys f (select (is_kept sys.now max_age))

-- The search of `Load`.
unfoldable pub find_record : String → List TaskRecord → Option TaskRecord
find_record id [] = none
find_record id (r ∷ rs) = if str_eq r.id id then some r else find_record id rs

unfoldable pub found_or : String → Option TaskRecord → Outcome TaskRecord
found_or id none = err (task_not_found id)
found_or id (some r) = ok r

shared : System → File → Outcome (List TaskRecord)
shared sys f = elim sys.lock_error [
  | none ↦ read_all f
  | some e ↦ err (Error.wrap "aigo: lock task store" e)
]

-- `Load`
unfoldable pub load : System → File → String → Outcome TaskRecord
unfolding shared found_or
load sys f id = shared sys f >>= λ rs. found_or id (find_record id rs)

-- `All`
unfoldable pub all_records : System → File → Outcome (List TaskRecord)
unfolding shared
all_records sys f = shared sys f
