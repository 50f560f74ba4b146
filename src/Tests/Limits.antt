-- ===== src/Tests/Limits.antt =====
-- A store of one shard and a status store by priority, each with a task too many.
use fish_async_task.Prelude.{
  ℕ, ◌+◌, ◌-◌, ◌≡◌, refl, String, Bool, false, none, some, [], ◌∷◌, arith,
}
use Prim.Native.Nat.{min}
use fish_async_task.Prelude.Int.{pos}
use fish_async_task.Prelude.Dict
use fish_async_task.Prelude.Heapq.{WeakOrder, ordered_heapq}
use fish_async_task.Status.{TaskStatusDict, completed}
use fish_async_task.Status.Store.{Store, Runtime, expires_before, get_total_count}
use fish_async_task.Status.Store.Limit.{
  enforce_max_count_full, enforce_max_count_incremental, cleanup_old_task_status,
}
use fish_async_task.Status.Store.Limit.Full.{OnlyNewest, enforce_max_count_full-OnlyNewest}
use fish_async_task.Status.Store.Limit.Incremental.{spare, enforce_max_count_incremental-count}
use fish_async_task.Status.Store.Limit.Removed.{Removes, cleanup_old_task_status-Removes}
use fish_async_task.PriorityCleanup.{
  TaskStatusWithExpiry, get_task, get_task_count, add_task, cleanup_expired, enforce_max_count,
}
use fish_async_task.PriorityCleanup.Expiring.{left, cleanup_expired-left}
use fish_async_task.PriorityCleanup.Invariant.{IsValid, add_task-IsValid}
use fish_async_task.PriorityCleanup.Limit.{OldestGone, enforce_max_count-OldestGone}

abbrev never : String → String → Bool
never a b = false

expiry_order : WeakOrder (expires_before never)
expiry_order = record { asymm = λ a b h. ground arith; trans = λ a b c h k. ground arith }

abbrev py : Runtime
py = record {
  hash = λ k. pos 4;
  id_lt = never;
  heapq = ordered_heapq (expires_before never) expiry_order;
}

abbrev ended : ℕ → TaskStatusDict ℕ
ended t = record {
  status = some completed;
  submit_time = none;
  start_time = some t;
  end_time = some t;
  result = some 42;
  error = none;
  worker_id = none;
}

abbrev two_tasks : Store ℕ
two_tasks = record {
  shard_count = 1;
  ttl = 10;
  shards = (("old", ended 3) ∷ ("new", ended 20) ∷ []) ∷ [];
  expiry_heaps =
      (record { time = 13; task_id = "old" } ∷ record { time = 30; task_id = "new" } ∷ []) ∷ [];
}

enforce_max_count_full-OnlyNewest_example :
    OnlyNewest py 1 two_tasks (enforce_max_count_full py 1 two_tasks)
unfolding get_total_count
enforce_max_count_full-OnlyNewest_example =
    enforce_max_count_full-OnlyNewest py 1 two_tasks (omega arith)

cleanup_old_task_status-Removes_example :
    Removes two_tasks (cleanup_old_task_status py 5 1 two_tasks)
unfolding Dict.has
cleanup_old_task_status-Removes_example =
    cleanup_old_task_status-Removes py 5 1 two_tasks ((refl, (refl, tt)), tt) refl

enforce_max_count_incremental-count_example :
    ((enforce_max_count_incremental py 1 two_tasks).0
      ≡ min (get_total_count two_tasks - 1) (spare two_tasks.shards))
    × ((enforce_max_count_incremental py 1 two_tasks).0
          + get_total_count (enforce_max_count_incremental py 1 two_tasks).1
        ≡ get_total_count two_tasks)
unfolding Dict.has
enforce_max_count_incremental-count_example =
    enforce_max_count_incremental-count py 1 two_tasks ((refl, (refl, tt)), tt) refl

abbrev nothing_stored : TaskStatusWithExpiry ℕ
nothing_stored = record { ttl = 10; status_dict = []; expiry_heap = [] }

nothing-IsValid : IsValid py nothing_stored
unfolding get_task Dict.lookup
nothing-IsValid = record { heap = tt; entries = λ k. refl; unique = tt }

abbrev both : TaskStatusWithExpiry ℕ
both = add_task py "new" (ended 20) (add_task py "old" (ended 3) nothing_stored)

both-IsValid : IsValid py both
both-IsValid =
    add_task-IsValid py "new" (ended 20) (add_task py "old" (ended 3) nothing_stored)
      (add_task-IsValid py "old" (ended 3) nothing_stored nothing-IsValid)

cleanup_expired-left_example :
    get_task (cleanup_expired py 25 none both).1 "old" ≡ left 25 both.ttl (get_task both "old")
cleanup_expired-left_example =
    cleanup_expired-left py 25 both "old" both-IsValid.heap (both-IsValid.entries "old")

enforce_max_count-OldestGone_example : OldestGone py 1 both (enforce_max_count py 1 both)
unfolding add_task Dict.insert get_task_count
enforce_max_count-OldestGone_example =
    enforce_max_count-OldestGone py 1 both both-IsValid (omega arith)
