-- ===== src/TaskStore/Records.antt =====
-- The list operations behind the store.
use text.Mathlib.TextEquality.{eq_iff}
use aigo.Base.{
  String, ◌≡◌, refl, Bool, false, not, ◌||◌, none, some, List, [], ◌∷◌, select, some_of, str_eq,
  if◌then◌else◌, arith,
}
use aigo.TaskStore.{TaskRecord, upsert, find_record}

-- No id twice.
abbrev pub HasUniqueIds : List TaskRecord → Type 0
HasUniqueIds [] = Unit
HasUniqueIds (r ∷ rs) =
    (some_of (λ (q : TaskRecord). str_eq q.id r.id) rs ≡ false) × HasUniqueIds rs

pub find_record-upsert :
    (r : TaskRecord) (rs : List TaskRecord) (id : String)
    → find_record id (upsert r rs) ≡ (if str_eq r.id id then some r else find_record id rs)
unfolding find_record upsert
find_record-upsert r [] id = refl
find_record-upsert r (q ∷ rs) id =
    ground (arith, eq_iff r.id id, eq_iff q.id r.id, eq_iff q.id id, find_record-upsert r rs id)

some_of-upsert :
    (r : TaskRecord) (rs : List TaskRecord) (id : String)
    → some_of (λ (q : TaskRecord). str_eq q.id id) (upsert r rs)
      ≡ (str_eq r.id id || some_of (λ (q : TaskRecord). str_eq q.id id) rs)
unfolding upsert
some_of-upsert r [] id = refl
some_of-upsert r (q ∷ rs) id =
    ground (arith, eq_iff r.id id, eq_iff q.id r.id, eq_iff q.id id, some_of-upsert r rs id)

pub upsert-HasUniqueIds :
    (r : TaskRecord) (rs : List TaskRecord) → HasUniqueIds rs → HasUniqueIds (upsert r rs)
unfolding upsert
upsert-HasUniqueIds r [] h = (refl, tt)
upsert-HasUniqueIds r (q ∷ rs) h = ground (
  arith,
  eq_iff q.id r.id,
  eq_iff r.id q.id,
  some_of-upsert r rs q.id,
  upsert-HasUniqueIds r rs h.1,
)

find_record-none :
    (id : String) (rs : List TaskRecord)
    → some_of (λ (q : TaskRecord). str_eq q.id id) rs ≡ false
    → find_record id rs ≡ none
unfolding find_record
find_record-none id [] h = refl
find_record-none id (r ∷ rs) h = ground (arith, find_record-none id rs)

-- The record that a search finds has the id.
pub find_record-id :
    (id : String) (rs : List TaskRecord) (r : TaskRecord) → find_record id rs ≡ some r → r.id ≡ id
unfolding find_record
find_record-id id [] r h = ground arith
find_record-id id (q ∷ rs) r h = ground (arith, eq_iff q.id id, find_record-id id rs r)

pub find_record-select_id :
    (id j : String) (rs : List TaskRecord)
    → find_record j (select (λ (r : TaskRecord). not (str_eq r.id id)) rs)
      ≡ (if str_eq id j then none else find_record j rs)
unfolding find_record
find_record-select_id id j [] = ground arith
find_record-select_id id j (r ∷ rs) =
    ground (arith, eq_iff id j, eq_iff r.id id, eq_iff r.id j, find_record-select_id id j rs)

some_of-select-false :
    (p : TaskRecord → Bool) (id : String) (rs : List TaskRecord)
    → some_of (λ (q : TaskRecord). str_eq q.id id) rs ≡ false
    → some_of (λ (q : TaskRecord). str_eq q.id id) (select p rs) ≡ false
some_of-select-false p id [] h = refl
some_of-select-false p id (r ∷ rs) h = ground (arith, some_of-select-false p id rs)

pub select-HasUniqueIds :
    (p : TaskRecord → Bool) (rs : List TaskRecord) → HasUniqueIds rs → HasUniqueIds (select p rs)
select-HasUniqueIds p [] h = tt
select-HasUniqueIds p (r ∷ rs) h =
    ground (arith, select-HasUniqueIds p rs h.1, some_of-select-false p r.id rs h.0)

-- With unique ids a filter keeps the record of an id exactly if the record passes.
pub find_record-select :
    (p : TaskRecord → Bool) (id : String) (rs : List TaskRecord)
    → HasUniqueIds rs
    → find_record id (select p rs)
      ≡ (elim (find_record id rs) [ none ↦ none | some r ↦ if p r then some r else none ])
unfolding find_record
find_record-select p id [] h = refl
find_record-select p id (r ∷ rs) h =
    ground (arith, eq_iff r.id id, find_record-select p id rs h.1, find_record-none id rs)
