-- ===== src/Executor/Execution.antt =====
-- `execute_task` of `TaskExecutor`, in two halves: before and after the task's function runs.
use fish_async_task.Prelude.{ℕ, String, Bool, false, Option, none, some, ltb, if◌then◌else◌}
use fish_async_task.Status.{running, completed}
use fish_async_task.Status.Store.{Runtime}
use fish_async_task.Executor.{
  Outcome, Pair, TaskExecutor, cleanup_cancel_event, keyboard_interrupt, memory_error, os_error,
  other_error, register_cancel_event, returns, set_cancel_event, system_exit, timeout_error,
  track_timed_out_task,
}
use fish_async_task.Executor.Batching.{
  check_and_flush_batch, queue_status_update, record_task_failure, update_item,
}

-- `if not task_timeout`
abbrev pub has_timeout : Option ℕ → Bool
has_timeout none = false
has_timeout (some t) = ltb 0 t

-- What `task_wrapper` leaves of an outcome: it catches `Exception` alone, and the thread ends with
-- `completed` set and no exception noted when another one passes.
unfoldable pub task_wrapper : {R : Type 0} → Outcome R → Outcome R
task_wrapper (returns r) = returns r
task_wrapper (timeout_error message) = timeout_error message
task_wrapper (os_error message) = os_error message
task_wrapper (memory_error message) = memory_error message
task_wrapper (other_error message) = other_error message
task_wrapper keyboard_interrupt = returns none
task_wrapper system_exit = returns none

-- What `execute_task` does with an exception in the end.
pub data Ending : Type 0 where
  ends_quietly : Ending
  reraises : Ending

-- `timeout_message` is the text of the `TimeoutError`.
module _ {R : Type 0} (py : Runtime) (timeout_message : String → Option ℕ → String) where
  -- `execute_task` and `_execute_with_timeout` up to the call of the function or the start of its
  -- thread.
  unfoldable pub begin_execute :
      (now start_time : ℕ) → String → (task_timeout : Option ℕ) → Pair R → Pair R
  unfolding queue_status_update register_cancel_event
  begin_execute now start_time k task_timeout p =
      let (e, m) =
        queue_status_update py now (update_item k running (some start_time) none none none) p in
      (if has_timeout task_timeout then register_cancel_event k e else e, m)

  -- `_handle_task_timeout`, without its raise
  unfoldable pub handle_task_timeout : (now : ℕ) → String → TaskExecutor R → TaskExecutor R
  unfolding track_timed_out_task set_cancel_event
  handle_task_timeout now k e = set_cancel_event k (track_timed_out_task now k e)

  -- The rest of `_execute_with_timeout`. `outcome` is how the function ends, and `in_time` whether
  -- it has when the wait for its thread is over.
  unfoldable pub execute_with_timeout :
      (now : ℕ)
      → String
      → (task_timeout : Option ℕ) → Outcome R
      → (in_time : Bool) → TaskExecutor R
      → Outcome R × TaskExecutor R
  unfolding handle_task_timeout cleanup_cancel_event task_wrapper
  execute_with_timeout now k task_timeout outcome in_time e =
      if has_timeout task_timeout
      then (if in_time
          then (task_wrapper outcome, cleanup_cancel_event k e)
          else (timeout_error (timeout_message k task_timeout), handle_task_timeout now k e))
      else (outcome, e)

  -- The rest of `execute_task`, but for its `finally`.
  unfoldable pub record_outcome :
      (now start_time : ℕ) → String → Outcome R → Pair R → Ending × Pair R
  unfolding queue_status_update record_task_failure cleanup_cancel_event
  record_outcome now start_time k (returns r) (e, m) = (
    ends_quietly,
    queue_status_update py now (update_item k completed (some start_time) (some now) r none)
        (cleanup_cancel_event k e, m),
  )
  record_outcome now start_time k keyboard_interrupt p =
      (reraises, record_task_failure py now k start_time "任务被中断" p)
  record_outcome now start_time k system_exit p = (reraises, p)
  record_outcome now start_time k (timeout_error message) p =
      (ends_quietly, record_task_failure py now k start_time message p)
  record_outcome now start_time k (os_error message) p =
      (ends_quietly, record_task_failure py now k start_time message p)
  record_outcome now start_time k (memory_error message) p =
      (ends_quietly, record_task_failure py now k start_time message p)
  record_outcome now start_time k (other_error message) p =
      (ends_quietly, record_task_failure py now k start_time message p)

  -- The second half of `execute_task`.
  unfoldable pub finish_execute :
      (now start_time : ℕ)
      → String
      → (task_timeout : Option ℕ) → Outcome R
      → (in_time : Bool) → Pair R
      → Ending × Pair R
  unfolding execute_with_timeout record_outcome check_and_flush_batch
  finish_execute now start_time k task_timeout outcome in_time (e, m) =
      let (seen, e') = execute_with_timeout now k task_timeout outcome in_time e in
      let (ending, p) = record_outcome now start_time k seen (e', m) in
      (ending, check_and_flush_batch py now p)
