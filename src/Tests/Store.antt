-- ===== src/Tests/Store.antt =====
-- Calls of the task file on two records, and of a cached engine.
use aigo.Base.{String, ◌≡◌, refl, [], ◌∷◌, some, str_eq, if◌then◌else◌, arith}
use aigo.Base.Assoc.{get}
use aigo.Base.Int.{pos}
use aigo.Errors.{Error, ok}
use aigo.Workflow.{Graph}
use aigo.TaskStore.{System, save, delete, purge, load, read_all}
use aigo.TaskStore.FileLaws
use aigo.TaskStore.Atomic
use aigo.TaskStore.Atomic.{Change, perform, AllOrNothing}
use aigo.TaskStore.Purging
use aigo.TaskStore.Purging.{after_purge, IsStore}
use aigo.Cache.{Cache, with_cache, store_result, execute, evict}
use aigo.Cache.Size
use aigo.Cache.Size.{Reached, IsValid}
use aigo.Cache.Hits
use aigo.Tests.Data.{one_node, good, answer, calm, task, two_tasks}

program : Unit {0}
unfolding save delete purge load read_all perform with_cache execute evict get
program = tt

load-save_example : load (calm 9) (save (calm 8) two_tasks (task "a" "completed")).1 "b" ≡ (
    if str_eq "a" "b"
    then ok (record (task "a" "completed") { updated_at = 8 })
    else load (calm 9) two_tasks "b")
unfolding program
load-save_example =
    FileLaws.load-save (calm 8) (calm 9) two_tasks (task "a" "completed") "b" refl refl

two_tasks-IsStore : IsStore two_tasks
unfolding program
two_tasks-IsStore = record {
  decoded = task "a" "pending" ∷ task "b" "failed" ∷ [];
  reads = refl;
  unique = (refl, (refl, tt));
}

load-purge_example :
    load (calm 99) (purge (calm 99) two_tasks (pos 5)).1 "b"
    ≡ after_purge 99 (pos 5) "b" (load (calm 99) two_tasks "b")
unfolding program
load-purge_example =
    Purging.load-purge (calm 99) (calm 99) two_tasks (pos 5) "b" two_tasks-IsStore refl refl

abbrev no_rename : System
no_rename = record (calm 9) { rename_error = some (Error.plain "not permitted") }

stays :
    perform no_rename two_tasks (Change.deleting "a")
    ≡ (some (Error.wrap "aigo: rename task store" (Error.plain "not permitted")), two_tasks)
unfolding program
stays = refl

perform-AllOrNothing_example :
    AllOrNothing no_rename
      (Change.deleting "a")
      two_tasks
      (perform no_rename two_tasks (Change.deleting "a"))
perform-AllOrNothing_example = Atomic.perform-AllOrNothing no_rename two_tasks (Change.deleting "a")

abbrev small_cache : Cache
small_cache = store_result 2 "k2" answer (store_result 1 "k1" answer (with_cache (pos 60) (pos 1)))

Reached-IsValid_example : IsValid small_cache
Reached-IsValid_example =
    Size.Reached-IsValid small_cache
      (Reached.stored 2 "k2" answer (Reached.stored 1 "k1" answer (Reached.made (pos 60) (pos 1))))

abbrev by_length : Graph → String
by_length g = if str_eq "" "" then "h" else ""

abbrev new_cache : Cache
new_cache = record { store = []; order = []; ttl = 60; max_size = 2 }

execute-execute_example :
    execute
      (λ w. w)
      by_length
      good
      (execute (λ w. w) by_length good new_cache one_node 5).cache
      one_node
      30
    ≡ record {
      outcome = ok answer;
      cache = (execute (λ w. w) by_length good new_cache one_node 5).cache;
      world = 30;
    }
unfolding program
execute-execute_example =
    Hits.execute-execute (λ w. w) by_length good new_cache one_node one_node 5 30 answer refl refl
      refl (omega arith)
