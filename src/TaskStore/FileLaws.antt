-- ===== src/TaskStore/FileLaws.antt =====
-- What `Load` reads after `Save` and `Delete`, and that a call that fails changes nothing.
use aigo.Base.{
  String, ◌≡◌, refl, ap, ◌∙◌, Option, none, some, List, str_eq, if◌then◌else◌, arith, Option-cases,
  inl, inr,
}
use aigo.Errors.{Error, Outcome, ok, err, ◌>>=◌}
use aigo.TaskStore.{
  TaskRecord, File, System, Disk, read_all, write_tmp, after_write, rename_tmp, remove_tmp,
  write_all, rewrite_records, rewrite, locked, upsert, save, delete, find_record, found_or, shared,
  load, task_not_found,
}
use aigo.TaskStore.Records.{find_record-id, find_record-upsert, find_record-select_id}

-- The disk with no temporary file.
abbrev clean : File → Disk
clean f = record { main = f; tmp = File.missing }

module _ (sys : System) (d : Disk) where
  write_all-ok :
      (rs : List TaskRecord)
      → (write_all sys d rs).0 ≡ none
      → (write_all sys d rs).1 ≡ clean (File.records rs)
  unfolding write_all write_tmp after_write rename_tmp
  write_all-ok rs h = ground arith

  -- Each step that can fail leaves the file at `s.path` alone.
  write_all-err :
      (rs : List TaskRecord) (e : Error)
      → (write_all sys d rs).0 ≡ some e
      → (write_all sys d rs).1.main ≡ d.main
  unfolding write_all write_tmp after_write rename_tmp remove_tmp
  write_all-err rs e h = ground arith

  rewrite_records-ok :
      (change : List TaskRecord → List TaskRecord) (o : Outcome (List TaskRecord))
      → (rewrite_records sys d change o).0 ≡ none
      → (rs : List TaskRecord) × (o ≡ ok rs)
        × ((rewrite_records sys d change o).1 ≡ clean (File.records (change rs)))
  unfolding rewrite_records
  rewrite_records-ok change (err e) h = absurd (ground arith)
  rewrite_records-ok change (ok rs) h = (rs, refl, write_all-ok (change rs) h)

  rewrite_records-err :
      (change : List TaskRecord → List TaskRecord) (o : Outcome (List TaskRecord)) (e : Error)
      → (rewrite_records sys d change o).0 ≡ some e
      → (rewrite_records sys d change o).1.main ≡ d.main
  unfolding rewrite_records
  rewrite_records-err change (err x) e h = refl
  rewrite_records-err change (ok rs) e h = write_all-err (change rs) e h

module _ (sys : System) (f : File) (change : List TaskRecord → List TaskRecord) where
  pub locked-ok :
      (locked sys f change).0 ≡ none
      → (rs : List TaskRecord) × (read_all f ≡ ok rs)
        × ((locked sys f change).1 ≡ File.records (change rs))
  unfolding locked rewrite
  locked-ok h = elim (Option-cases sys.lock_error) [
    | inl e ↦
        let (rs, r, w) = rewrite_records-ok sys (clean f) change (read_all f) (ground (arith, e)) in
        (rs, r, ground (arith, e, ap (λ (d : Disk). d.main) w))
    | inr (d, e) ↦ absurd (ground (arith, e))
  ]

  pub locked-err : (e : Error) → (locked sys f change).0 ≡ some e → (locked sys f change).1 ≡ f
  unfolding locked rewrite
  locked-err e h = ground (arith, rewrite_records-err sys (clean f) change (read_all f) e)

pub save-err :
    (sys : System) (f : File) (r : TaskRecord) (e : Error)
    → (save sys f r).0 ≡ some e
    → (save sys f r).1 ≡ f
unfolding save
save-err sys f r e h = locked-err sys f _ e h

-- Under an obtained lock `Load` searches the decoded records.
pub load-records :
    (sys : System) (f : File) (id : String) (rs : List TaskRecord)
    → sys.lock_error ≡ none
    → read_all f ≡ ok rs
    → load sys f id ≡ found_or id (find_record id rs)
unfolding load shared
load-records sys f id rs l r = rw (l, shared) (rw r)

pub read-records : (f : File) (rs : List TaskRecord) → f ≡ File.records rs → read_all f ≡ ok rs
unfolding read_all
read-records f rs h = rw h

found_or-id :
    (id : String) (o : Option TaskRecord) (r : TaskRecord) → found_or id o ≡ ok r → o ≡ some r
unfolding found_or
found_or-id id none r h = ground arith
found_or-id id (some q) r h = ground arith

>>=-found_or :
    (o : Outcome (List TaskRecord)) (id : String) (r : TaskRecord)
    → (o >>= λ rs. found_or id (find_record id rs)) ≡ ok r
    → r.id ≡ id
>>=-found_or (err e) id r h = absurd (ground arith)
>>=-found_or (ok rs) id r h = find_record-id id rs r (found_or-id id (find_record id rs) r h)

pub load-id :
    (sys : System) (f : File) (id : String) (r : TaskRecord) → load sys f id ≡ ok r → r.id ≡ id
unfolding load
load-id sys f id r h = >>=-found_or (shared sys f) id r h

-- After a `Save` that returned nil, a `Load` that obtains its lock gives for the saved id the record with
-- the time of the save, and for another id what it gave before.
pub load-save :
    (sys later : System) (f : File) (r : TaskRecord) (id : String)
    → (save sys f r).0 ≡ none
    → later.lock_error ≡ none
    → load later (save sys f r).1 id
      ≡ (if str_eq r.id id then ok (record r { updated_at = sys.now }) else load later f id)
unfolding save found_or
load-save sys later f r id h l =
    let r' : TaskRecord = record r { updated_at = sys.now } in
    let (rs, was, now) = locked-ok sys f (upsert r') h in
    load-records later _ id (upsert r' rs) l (read-records _ _ now)
    ∙ ground (arith, find_record-upsert r' rs id, load-records later f id rs l was)

-- After a `Delete` that returned nil the id is not found, and other ids read as before.
pub load-delete :
    (sys later : System) (f : File) (id j : String)
    → (delete sys f id).0 ≡ none
    → later.lock_error ≡ none
    → load later (delete sys f id).1 j
      ≡ (if str_eq id j then err (task_not_found j) else load later f j)
unfolding delete found_or
load-delete sys later f id j h l =
    let (rs, was, now) = locked-ok sys f _ h in
    load-records later _ j _ l (read-records _ _ now)
    ∙ ground (arith, find_record-select_id id j rs, load-records later f j rs l was)
