-- ===== src/Tests/Statuses.antt =====
-- A store of two shards, both tasks of which are in the first.
use fish_async_task.Prelude.{
  ℕ, ◌+◌, ◌≤◌, ◌<◌, ◌≡◌, refl, String, Bool, false, none, some, [], ◌∷◌, arith, ◌⊎◌,
}
use fish_async_task.Prelude.Int.{pos}
use fish_async_task.Prelude.Dict
use fish_async_task.Prelude.Heapq.{WeakOrder, ordered_heapq}
use fish_async_task.Status.{TaskStatusDict, completed}
use fish_async_task.Sharded.Refinement.{updates, removes, Follows, run_described}
use fish_async_task.Sharded.{ShardedTaskStatus}
use fish_async_task.Status.Store.{
  Store, Runtime, expires_before, new, get_status, update_status, get_total_count, resize_shards,
}
use fish_async_task.Status.Store.View.{IsValid, get_status-update_status, update_status-IsValid}
use fish_async_task.Status.Store.Resize.{new-IsValid, Resized, resize_shards_keeps}
use fish_async_task.Status.Store.Cleanup.{Sweep, cleanup_expired}
use fish_async_task.Status.Store.Cleanup.Safety.{KeptOrOverdue, cleanup_expired-safe}
use fish_async_task.Status.Store.Cleanup.Counting.{cleanup_expired_count}
use fish_async_task.Status.Store.Cleanup.Boundary.{expiring}

abbrev never : String → String → Bool
never a b = false

expiry_order : WeakOrder (expires_before never)
expiry_order = record { asymm = λ a b h. ground arith; trans = λ a b c h k. ground arith }

abbrev py : Runtime
py = record {
  hash = λ k. pos 4;
  id_lt = never;
  heapq = ordered_heapq (expires_before never) expiry_order;
}

abbrev ended : ℕ → TaskStatusDict ℕ
ended t = record {
  status = some completed;
  submit_time = some 1;
  start_time = some 2;
  end_time = some t;
  result = some 42;
  error = none;
  worker_id = none;
}

abbrev empty_store : Store ℕ
empty_store = new 2 10

abbrev store : Store ℕ
store = update_status py (update_status py empty_store "a" (ended 3)) "b" (ended 20)

store-IsValid : IsValid py store
store-IsValid =
    update_status-IsValid py (update_status py empty_store "a" (ended 3)) "b" (ended 20)
      (update_status-IsValid py empty_store "a" (ended 3) (new-IsValid py 2 10 (omega arith)))

get_status-update_status_example :
    get_status py (update_status py store "a" (ended 9)) "b" ≡ get_status py store "b"
get_status-update_status_example = get_status-update_status py store "a" "b" (ended 9) store-IsValid

resize_shards_keeps_example :
    ((◌≡◌ {A = ℕ} 3 0) × (resize_shards py store 3 ≡ (false, store)))
    ⊎ ((0 < 3) × Resized py store 3 (resize_shards py store 3))
resize_shards_keeps_example = resize_shards_keeps py store 3 store-IsValid

cleanup_expired-safe_example :
    KeptOrOverdue 25 store.ttl
      (get_status py store "a")
      (get_status py (cleanup_expired py 25 store (some 100)).1 "a")
cleanup_expired-safe_example = cleanup_expired-safe py 25 store (some 100) "a"

abbrev small : Store ℕ
small = record {
  shard_count = 2;
  ttl = 10;
  shards = (("a", ended 3) ∷ ("b", ended 20) ∷ []) ∷ [] ∷ [];
  expiry_heaps =
      (record { time = 13; task_id = "a" } ∷ record { time = 30; task_id = "b" } ∷ []) ∷ [] ∷ [];
}

cleanup_expired_count_example :
    ((cleanup_expired py 25 small (some 1)).0
        + get_total_count (cleanup_expired py 25 small (some 1)).1
      ≡ get_total_count small)
    × ((n : ℕ) → some 1 ≡ some n → (cleanup_expired py 25 small (some 1)).0 ≤ n)
unfolding Dict.has
cleanup_expired_count_example =
    cleanup_expired_count py 25 small (some 1) ((refl, (refl, tt)), (tt, tt))

abbrev at_the_moment : Sweep ℕ
at_the_moment =
    expiring py 13 10 (("a", ended 3) ∷ []) (record { time = 13; task_id = "a" }) [] 0 none

run_described_example :
    (s : ShardedTaskStatus ℕ) × Follows
      (λ k. 7)
      4
      (updates "a" (ended 3) ∷ updates "b" (ended 4) ∷ removes "a" ∷ [])
      s
run_described_example =
    run_described (λ k. 7) 4 (updates "a" (ended 3) ∷ updates "b" (ended 4) ∷ removes "a" ∷ [])
      (omega arith) (omega arith)
