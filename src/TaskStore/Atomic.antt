-- ===== src/TaskStore/Atomic.antt =====
-- That `Save`, `Delete` and `Purge` change the file wholly or not at all.
use mathlib.Core.Path.{subst}
use aigo.Base.{String, ◌≡◌, refl, sym, not, select, Option, none, some, List, str_eq}
use aigo.Base.Int.{ℤ}
use aigo.Errors.{Error, ok}
use aigo.TaskStore.{
  TaskRecord, File, System, read_all, locked, upsert, save, delete, is_kept, purge,
}
use aigo.TaskStore.FileLaws.{locked-ok, locked-err}

-- The calls that change the file.
pub data Change : Type 0 where
  saving : TaskRecord → Change
  deleting : String → Change
  purging : ℤ → Change

unfoldable pub perform : System → File → Change → Option Error × File
perform sys f (Change.saving r) = save sys f r
perform sys f (Change.deleting id) = delete sys f id
perform sys f (Change.purging max_age) = purge sys f max_age

-- The records after the change.
abbrev pub change_of : System → Change → List TaskRecord → List TaskRecord
change_of sys (Change.saving r) = upsert (record r { updated_at = sys.now })
change_of sys (Change.deleting id) = select (λ r. not (str_eq r.id id))
change_of sys (Change.purging max_age) = select (is_kept sys.now max_age)

-- What a call that changes the file returns, from the file before it.
pub data AllOrNothing (sys : System) (c : Change) (f : File) : Option Error × File → Type 0 where
  done :
      (rs : List TaskRecord)
      → read_all f ≡ ok rs
      → AllOrNothing sys c f (none, File.records (change_of sys c rs))
  undone : (e : Error) → AllOrNothing sys c f (some e, f)

locked-AllOrNothing :
    (sys : System) (f : File) (c : Change) → AllOrNothing sys c f (locked sys f (change_of sys c))
locked-AllOrNothing sys f c =
    split (locked sys f (change_of sys c)) (locked-ok sys f _) (locked-err sys f _)
  where
    split :
        (x : Option Error × File)
        → (x.0 ≡ none
            → (rs : List TaskRecord) × (read_all f ≡ ok rs)
              × (x.1 ≡ File.records (change_of sys c rs)))
        → ((e : Error) → x.0 ≡ some e → x.1 ≡ f)
        → AllOrNothing sys c f x
    split (none, g) good bad =
        let (rs, r, w) = good refl in
        subst (λ (h : File). AllOrNothing sys c f (none, h)) (sym w) (AllOrNothing.done rs r)
    split (some e, g) good bad =
        subst (λ (h : File). AllOrNothing sys c f (some e, h)) (sym (bad e refl))
          (AllOrNothing.undone e)

-- A `Save`, `Delete` or `Purge` returns nil and leaves the changed records in the file, or returns an
-- error, whether of the lock, the read, the encoding, the temporary file or the rename, and leaves the
-- file as it was.
pub perform-AllOrNothing :
    (sys : System) (f : File) (c : Change) → AllOrNothing sys c f (perform sys f c)
unfolding perform save delete purge
perform-AllOrNothing sys f (Change.saving r) = locked-AllOrNothing sys f (Change.saving r)
perform-AllOrNothing sys f (Change.deleting id) = locked-AllOrNothing sys f (Change.deleting id)
perform-AllOrNothing sys f (Change.purging max_age) =
    locked-AllOrNothing sys f (Change.purging max_age)
