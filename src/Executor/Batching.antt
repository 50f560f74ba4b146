-- ===== src/Executor/Batching.antt =====
-- The batch of updates of `TaskExecutor`.
use fish_async_task.Prelude.{
  ℕ, String, ◌||◌, ◌&&◌, Option, none, some, List, [], ◌∷◌, ◌++◌, leb, ltb, if◌then◌else◌, length,
}
use fish_async_task.Status.{TaskStatus, failed}
use fish_async_task.Status.Merge.{Update}
use fish_async_task.Status.Store.{Runtime}
use fish_async_task.Status.Batch.{TaskStatusManager, update_task_status}
use fish_async_task.Executor.{Pair, TaskExecutor, interval_over}

-- The item that `_queue_status_update` makes of its arguments.
abbrev pub update_item :
    {R : Type 0}
    → String
    → TaskStatus
    → (start_time end_time : Option ℕ) → Option R
    → Option String
    → Update R
update_item k status start_time end_time result error = record {
  task_id = k;
  status = status;
  start_time = start_time;
  end_time = end_time;
  result = result;
  error = error;
  submit_time = none;
}

module _ {R : Type 0} (py : Runtime) where
  -- The loop of `_flush_batch_updates` over the items.
  unfoldable pub send_updates :
      (now : ℕ) → List (Update R) → TaskStatusManager R → TaskStatusManager R
  send_updates now [] m = m
  send_updates now (u ∷ us) m = send_updates now us (update_task_status py now u m)

  -- `_flush_batch_updates`
  unfoldable pub flush_batch_updates : (now : ℕ) → Pair R → Pair R
  unfolding send_updates
  flush_batch_updates now (e, m) =
      if ltb 0 (length e.batch_updates)
      then (record e { batch_updates = [] }, send_updates now e.batch_updates m)
      else (e, m)

  -- `_queue_status_update`
  unfoldable pub queue_status_update : (now : ℕ) → Update R → Pair R → Pair R
  unfolding flush_batch_updates
  queue_status_update now u (e, m) =
      let e' : TaskExecutor R = record e { batch_updates = e.batch_updates ++ (u ∷ []) } in
      if leb e.batch_size (length e'.batch_updates) || interval_over now e
      then flush_batch_updates now (record e' { last_batch_flush = now }, m)
      else (e', m)

  -- `_check_and_flush_batch`
  unfoldable pub check_and_flush_batch : (now : ℕ) → Pair R → Pair R
  unfolding flush_batch_updates
  check_and_flush_batch now (e, m) =
      if ltb 0 (length e.batch_updates) && interval_over now e
      then flush_batch_updates now (e, m)
      else (e, m)

  unfoldable pub flush_pending_updates : (now : ℕ) → Pair R → ℕ × Pair R
  unfolding flush_batch_updates
  flush_pending_updates now (e, m) = (
    length e.batch_updates,
    if ltb 0 (length e.batch_updates) then flush_batch_updates now (e, m) else (e, m),
  )

  -- `_record_task_failure`
  unfoldable pub record_task_failure :
      (now : ℕ) → String → (start_time : ℕ) → (error : String) → Pair R → Pair R
  unfolding queue_status_update
  record_task_failure now k start_time error p =
      queue_status_update now (update_item k failed (some start_time) (some now) none (some error))
        p
