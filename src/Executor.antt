-- ===== src/Executor.antt =====
-- `TaskExecutor` of fish_async_task/worker/executor.py, over the `TaskStatusManager` whose
-- `update_task_status` it is given. The workers share one executor. `_batch_lock` is held over a
-- whole queueing or flush, the calls of `update_task_status` included, and each is one step. What
-- happens while the task's function runs lies between the two halves of `execute_task`. `now` is
-- what `time.time()` returns during a step. The cleanup callbacks, of which the program adds none,
-- are not modelled: their exceptions are caught, and they see the id alone.
pub mod Batching
pub mod Execution
pub mod Settled
pub mod Outcomes
pub mod Kept
pub mod Timeouts
use fish_async_task.Prelude.{
  ℕ, zero, suc, ◌+◌, ◌-◌, String, Bool, true, false, ◌||◌, ◌&&◌, Option, none, some, List, [], ◌∷◌,
  ◌++◌, leb, ltb, eqb, if◌then◌else◌, length,
}
use fish_async_task.Prelude.Dict.{Dict}
use fish_async_task.Prelude.Dict
use fish_async_task.Status.{TaskStatus, running, completed, failed}
use fish_async_task.Status.Merge.{Update}
use fish_async_task.Status.Store.{Runtime}
use fish_async_task.Status.Batch.{TaskStatusManager, update_task_status}

-- The event of a task tells whether it is set.
pub record TaskExecutor (R : Type 0) : Type 0 where
  pub batch_size : ℕ
  pub batch_flush_interval : ℕ
  pub batch_updates : List (Update R)
  pub last_batch_flush : ℕ
  pub timed_out_tasks : Dict ℕ
  pub task_cancel_events : Dict Bool

abbrev pub max_tracked_timeouts : ℕ
max_tracked_timeouts = 1000

abbrev pub timeout_task_expiry : ℕ
timeout_task_expiry = 3600

-- How a call of the task's function ends: the exceptions are those that `execute_task` tells apart,
-- with their text.
pub data Outcome (R : Type 0) : Type 0 where
  returns : Option R → Outcome R
  timeout_error os_error memory_error other_error : (message : String) → Outcome R
  keyboard_interrupt system_exit : Outcome R

-- `__init__`
unfoldable pub new : {R : Type 0} → (batch_size batch_flush_interval now : ℕ) → TaskExecutor R
new batch_size batch_flush_interval now = record {
  batch_size = batch_size;
  batch_flush_interval = batch_flush_interval;
  batch_updates = [];
  last_batch_flush = now;
  timed_out_tasks = [];
  task_cancel_events = [];
}

module _ {R : Type 0} where
  abbrev pub interval_over : ℕ → TaskExecutor R → Bool
  interval_over now e = leb (e.last_batch_flush + e.batch_flush_interval) now

  unfoldable pub get_pending_update_count : TaskExecutor R → ℕ
  get_pending_update_count e = length e.batch_updates

  -- `_register_cancel_event`
  unfoldable pub register_cancel_event : String → TaskExecutor R → TaskExecutor R
  register_cancel_event k e = record e {
    task_cancel_events = Dict.insert k false e.task_cancel_events;
  }

  -- `_set_cancel_event`
  unfoldable pub set_cancel_event : String → TaskExecutor R → TaskExecutor R
  set_cancel_event k e =
      if Dict.has k e.task_cancel_events
      then record e { task_cancel_events = Dict.insert k true e.task_cancel_events }
      else e

  -- `_cleanup_cancel_event`
  unfoldable pub cleanup_cancel_event : String → TaskExecutor R → TaskExecutor R
  cleanup_cancel_event k e = record e { task_cancel_events = Dict.delete k e.task_cancel_events }

  unfoldable pub get_cancel_event : String → TaskExecutor R → Option Bool
  get_cancel_event k e = Dict.lookup k e.task_cancel_events

-- `current_time - expiry > self.TIMEOUT_TASK_EXPIRY`
abbrev pub is_expired : (now : ℕ) → String × ℕ → Bool
is_expired now (_, expiry) = ltb (expiry + timeout_task_expiry) now

-- The ids of the first `n` expired records, in the order of the dict.
unfoldable pub expired_ids : (now n : ℕ) → Dict ℕ → List String
expired_ids now n [] = []
expired_ids now zero (t ∷ d) = []
expired_ids now (suc n) (t ∷ d) =
    let rest = expired_ids now n d in
    let later = expired_ids now (suc n) d in if is_expired now t then t.0 ∷ rest else later

-- The loop with `self._timed_out_tasks.pop(tid, None)`.
unfoldable pub pop_all : List String → Dict ℕ → Dict ℕ
pop_all [] d = d
pop_all (k ∷ ks) d = pop_all ks (Dict.delete k d)

-- `if len(self._timed_out_tasks) < self.MAX_TRACKED_TIMEOUTS` and the assignment under it.
abbrev pub record_time_out : (now : ℕ) → String → Dict ℕ → Dict ℕ
record_time_out now k d = if ltb (length d) max_tracked_timeouts then Dict.insert k now d else d

module _ {R : Type 0} where
  -- `_track_timed_out_task`
  unfoldable pub track_timed_out_task : (now : ℕ) → String → TaskExecutor R → TaskExecutor R
  unfolding pop_all expired_ids
  track_timed_out_task now k e =
      let d = e.timed_out_tasks in
      record e {
        timed_out_tasks = record_time_out now k (pop_all (expired_ids now (length d) d) d);
      }

  unfoldable pub cleanup_timed_out_tasks :
      (now max_cleanup : ℕ) → TaskExecutor R → ℕ × TaskExecutor R
  unfolding pop_all expired_ids
  cleanup_timed_out_tasks now max_cleanup e =
      let ids = expired_ids now max_cleanup e.timed_out_tasks in
      (length ids, record e { timed_out_tasks = pop_all ids e.timed_out_tasks })

  unfoldable pub get_timed_out_task_count : TaskExecutor R → ℕ
  get_timed_out_task_count e = length e.timed_out_tasks

-- The executor and the manager that it updates.
abbrev pub Pair : Type 0 → Type 0
Pair R = TaskExecutor R × TaskStatusManager R
