-- ===== src/Tests/Batches.antt =====
-- A manager that batches its updates, over a store of two shards.
use fish_async_task.Prelude.{ℕ, String, Bool, true, false, none, some, List, [], ◌∷◌, arith}
use fish_async_task.Prelude.Int.{pos}
use fish_async_task.Prelude.Heapq.{WeakOrder, ordered_heapq}
use fish_async_task.Status.{running, completed}
use fish_async_task.Status.Merge.{Update}
use fish_async_task.Status.Store.{Store, Runtime, expires_before, new}
use fish_async_task.Status.Manager.History.{update_all}
use fish_async_task.Status.Batch.{BatchedStatusUpdater, TaskStatusManager, new_manager}
use fish_async_task.Status.Batch.Refinement.{
  Call, updates, checks, enables, run, ShutDown, run-ShutDown,
}

abbrev never : String → String → Bool
never a b = false

expiry_order : WeakOrder (expires_before never)
expiry_order = record { asymm = λ a b h. ground arith; trans = λ a b c h k. ground arith }

abbrev py : Runtime
py = record {
  hash = λ k. pos 4;
  id_lt = never;
  heapq = ordered_heapq (expires_before never) expiry_order;
}

abbrev starts : Update ℕ
starts = record {
  task_id = "a";
  status = running;
  submit_time = some 1;
  start_time = some 2;
  end_time = none;
  result = none;
  error = none;
}

abbrev ends : Update ℕ
ends = record {
  task_id = "a";
  status = completed;
  submit_time = none;
  start_time = none;
  end_time = some 5;
  result = some 42;
  error = none;
}

abbrev empty_store : Store ℕ
empty_store = new 2 10

abbrev calls : List (Call ℕ)
calls = updates 3 starts ∷ checks 4 ∷ enables 5 true ∷ updates 6 ends ∷ []

run-ShutDown_example :
    ShutDown py
      (run py (new_manager py 0 100 50 empty_store) calls)
      (update_all py empty_store (starts ∷ ends ∷ []))
run-ShutDown_example = run-ShutDown py 0 100 50 empty_store calls

abbrev updater : BatchedStatusUpdater ℕ
updater = record { batch_size = 100; flush_interval = 50; batch = ends ∷ []; last_flush = 3 }

abbrev manager : TaskStatusManager ℕ
manager = record {
  sharded_status = empty_store;
  batch_size = 100;
  batch_flush_interval = 50;
  batch_updater = some updater;
  use_batch_update = true;
}
