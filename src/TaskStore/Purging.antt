-- ===== src/TaskStore/Purging.antt =====
-- What `Load` reads after a `Purge`.
use mathlib.Core.Path.{subst}
use aigo.Base.{
  suc, ◌+◌, ◌&&◌, Bool, leb, ℕ, String, ◌≡◌, refl, sym, ap, ◌∙◌, not, Option, none, some, List,
  str_eq, if◌then◌else◌, arith,
}
use aigo.Base.Int.{ℤ, pos, negsuc}
use aigo.Errors.{Outcome, ok, err}
use aigo.TaskStore.{
  TaskRecord, File, System, read_all, is_kept, is_recent, status_pending, purge, find_record,
  found_or, load, task_not_found,
}
use aigo.TaskStore.FileLaws.{locked-ok, load-records, read-records}
use aigo.TaskStore.Records.{HasUniqueIds, find_record-select}

ok-injective {ℓ} : {A : Type ℓ} {a b : A} → ok a ≡ ok b → a ≡ b
ok-injective h = cc

-- Changed at `now - max_age` or before; a negative age reaches into the future.
abbrev pub is_old : ℕ → ℤ → ℕ → Bool
is_old now (pos age) updated = leb (updated + age) now
is_old now (negsuc n) updated = leb updated (now + suc n)

kept-old :
    (now : ℕ) (max_age : ℤ) (r : TaskRecord)
    → is_kept now max_age r
      ≡ not (not (str_eq r.status status_pending) && is_old now max_age r.updated_at)
unfolding is_kept is_recent
kept-old now (pos age) r = ground arith
kept-old now (negsuc n) r = ground arith

-- What `Purge` leaves of the answer of a `Load`.
abbrev pub after_purge : ℕ → ℤ → String → Outcome TaskRecord → Outcome TaskRecord
after_purge now max_age id (err e) = err e
after_purge now max_age id (ok r) =
    if not (str_eq r.status status_pending) && is_old now max_age r.updated_at
    then err (task_not_found id)
    else ok r

purged :
    (now : ℕ) (max_age : ℤ) (id : String) (o : Option TaskRecord)
    → found_or id (elim o [ none ↦ none | some r ↦ if is_kept now max_age r then some r else none ])
      ≡ after_purge now max_age id (found_or id o)
unfolding found_or
purged now max_age id none = refl
purged now max_age id (some r) = ground (arith, kept-old now max_age r)

-- The records of the file have distinct ids.
pub record IsStore (f : File) : Type 0 where
  pub decoded : List TaskRecord
  pub reads : read_all f ≡ ok decoded
  pub unique : HasUniqueIds decoded

-- If the ids of the file are distinct, then after a `Purge` that returned nil a `Load` that obtains its
-- lock gives what it gave before, unless the record is not pending and its last change is `max_age` or
-- more ago: such a record is not found.
pub load-purge :
    (sys later : System) (f : File) (max_age : ℤ) (id : String)
    → IsStore f
    → (purge sys f max_age).0 ≡ none
    → later.lock_error ≡ none
    → load later (purge sys f max_age).1 id ≡ after_purge sys.now max_age id (load later f id)
unfolding purge
load-purge sys later f max_age id store h l =
    let (rs, was, now) = locked-ok sys f _ h in
    let unique : HasUniqueIds rs =
      subst HasUniqueIds (ok-injective (sym store.reads ∙ was)) store.unique in
    load-records later _ id _ l (read-records _ _ now)
    ∙ ap (found_or id) (find_record-select (is_kept sys.now max_age) id rs unique)
    ∙ purged sys.now max_age id (find_record id rs)
    ∙ ap (after_purge sys.now max_age id) (sym (load-records later f id rs l was))
