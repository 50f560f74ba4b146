-- ===== src/TaskManager.antt =====
-- `TaskManager` of fish_async_task/task_manager.py, which ties the worker pool, the executor and
-- the status manager together: the three share one queue and one store. `submit_task` is cut where
-- another thread may run between its calls, and so is `shutdown`, which waits for the threads. A
-- task's function, with its arguments, is an opaque `F`. `queue.Queue` takes an element exactly
-- when it has less than `maxsize`; a blocking `put` is the same test at a later moment.
pub mod Instances
pub mod Forced
pub mod Views
pub mod History
pub mod Knowing
pub mod Reading
pub mod Races
pub mod Closing
pub mod Exits
use fish_async_task.Prelude.{
  ℕ, zero, suc, ◌+◌, String, Bool, true, false, not, ◌||◌, ◌&&◌, Option, none, some, List, [], ◌∷◌,
  ◌++◌, leb, ltb, if◌then◌else◌, length, ◌==◌,
}
use fish_async_task.Status.{TaskStatusDict, pending, running, completed, failed}
use fish_async_task.Status.Merge.{Update}
use fish_async_task.Status.Store.{Runtime}
use fish_async_task.Status.Manager.{clear_task_status}
use fish_async_task.Status.Batch.{
  BatchedStatusUpdater, TaskStatusManager, force_flush, update_task_status,
}
use fish_async_task.Status.Batch
use fish_async_task.Workers.{
  WorkerManager, scale_up_workers_if_needed, send_shutdown_signals, busy_round,
}
use fish_async_task.Executor.{TaskExecutor, Outcome, Pair}
use fish_async_task.Executor.Batching.{flush_pending_updates}
use fish_async_task.Executor.Execution.{begin_execute, finish_execute}

abbrev pub default_queue_size : ℕ
default_queue_size = 1000

pub record TaskManager (F R : Type 0) : Type 0 where
  pub worker_manager : WorkerManager (String × F)
  pub task_executor : TaskExecutor R
  pub status_manager : TaskStatusManager R
  pub task_timeout : Option ℕ
  pub running_event : Bool
  pub timers : ℕ
  pub scale_scheduled : Bool
  pub scale_scheduled_time : ℕ

module _ {F R : Type 0} where
  -- `self.task_queue.put(...)`; none is the `TaskQueueFullError`.
  unfoldable pub put_task : String → F → TaskManager F R → Option (TaskManager F R)
  put_task k f m =
      let w = m.worker_manager in
      if ltb (length w.task_queue) default_queue_size
      then some (record m {
        worker_manager = record w { task_queue = w.task_queue ++ (some (k, f) ∷ []) };
      })
      else none

  -- The first block of `_schedule_scale_check`: a check that did not come for 30 seconds is
  -- forgotten.
  abbrev pub still_scheduled : (now : ℕ) → TaskManager F R → Bool
  still_scheduled now m = m.scale_scheduled && leb now (m.scale_scheduled_time + 30)

  unfoldable pub schedule_scale_check : (now : ℕ) → TaskManager F R → TaskManager F R
  schedule_scale_check now m =
      if still_scheduled now m
      then m
      else record m { scale_scheduled = true; scale_scheduled_time = now; timers = suc m.timers }

  unfoldable pub delayed_scale_check :
      (now : ℕ) (cpu_usage : Option ℕ) → TaskManager F R → TaskManager F R
  delayed_scale_check now cpu_usage m = record m {
    worker_manager = scale_up_workers_if_needed now cpu_usage m.worker_manager;
    scale_scheduled = false;
  }

  -- The first half of `shutdown`, up to the waits; none is the return of a manager that is not
  -- running. `before` and `waiting` are what the workers do while the signals are sent.
  unfoldable pub begin_shutdown :
      (before waiting : ℕ → WorkerManager (String × F) → WorkerManager (String × F))
      → TaskManager F R
      → Option (TaskManager F R)
  begin_shutdown before waiting m =
      if m.running_event
      then some (record m {
        running_event = false;
        timers = 0;
        worker_manager = send_shutdown_signals default_queue_size before waiting m.worker_manager;
      })
      else none

  -- The executor and the status manager.
  abbrev pub pair_of : TaskManager F R → Pair R
  pair_of m = (m.task_executor, m.status_manager)

  abbrev pub with_pair : Pair R → TaskManager F R → TaskManager F R
  with_pair (e, s) m = record m { task_executor = e; status_manager = s }

-- The arguments of the update in `submit_task`.
abbrev pub pending_item : {R : Type 0} → (now : ℕ) → String → Update R
pending_item now k = record {
  task_id = k;
  status = pending;
  start_time = none;
  end_time = none;
  result = none;
  error = none;
  submit_time = some now;
}

module _ {R : Type 0} (py : Runtime) where
  -- `self.status_manager._batch_updater.force_flush()` where there is an updater.
  abbrev pub force_updater :
      TaskStatusManager R → Option (BatchedStatusUpdater R) → TaskStatusManager R
  force_updater m none = m
  force_updater m (some b) =
      let (n, (b', s)) = force_flush py (b, m.sharded_status) in
      record m { sharded_status = s; batch_updater = some b' }

  -- The two flushes of `get_task_status`.
  unfoldable pub flush_all : (now : ℕ) → Pair R → Pair R
  flush_all now p =
      let (n, (e, m)) = flush_pending_updates py now p in (e, force_updater m m.batch_updater)

module _ {F R : Type 0} (py : Runtime) where
  -- The update in `submit_task`.
  unfoldable pub note_pending : (now : ℕ) → String → TaskManager F R → TaskManager F R
  note_pending now k m = record m {
    status_manager = update_task_status py now (pending_item now k) m.status_manager;
  }

  unfoldable pub get_task_status :
      (now : ℕ) → String → TaskManager F R → Option (TaskStatusDict R) × TaskManager F R
  unfolding flush_all
  get_task_status now k m =
      let (e, s) = flush_all py now (pair_of m) in
      (Batch.get_task_status py s k, with_pair (e, s) m)

  -- The end of `shutdown`, after the waits.
  unfoldable pub end_shutdown : TaskManager F R → TaskManager F R
  end_shutdown m =
      let s = m.status_manager in
      record m {
        worker_manager = record m.worker_manager { worker_threads = [] };
        status_manager = record s { sharded_status = clear_task_status py s.sharded_status none };
      }

-- What the threads of the program do, in any order: a caller puts a task into the queue, notes it
-- as pending, and schedules a check, which comes; a worker takes the front of the queue, begins
-- a task and finishes it; a caller reads a status.
pub data Event (F R : Type 0) : Type 0 where
  puts : String → F → Event F R
  notes : (now : ℕ) → String → Event F R
  schedules : (now : ℕ) → Event F R
  scales : (now : ℕ) → (cpu_usage : Option ℕ) → Event F R
  takes : (i task_time : ℕ) → Event F R
  begins : (now start_time : ℕ) → String → Event F R
  finishes : (now start_time : ℕ) → String → Outcome R → (in_time : Bool) → Event F R
  reads : (now : ℕ) → String → Event F R

module _ {F R : Type 0} where
  -- A task that finds no room is refused.
  abbrev pub or_refused : TaskManager F R → Option (TaskManager F R) → TaskManager F R
  or_refused m none = m
  or_refused m (some m') = m'

module _ {F R : Type 0} (py : Runtime) (timeout_message : String → Option ℕ → String) where
  unfoldable pub step : TaskManager F R → Event F R → TaskManager F R
  step m (puts k f) = or_refused m (put_task k f m)
  step m (notes now k) = note_pending py now k m
  step m (schedules now) = schedule_scale_check now m
  step m (scales now cpu_usage) = delayed_scale_check now cpu_usage m
  step m (takes i task_time) = record m {
    worker_manager = (busy_round i task_time m.worker_manager).1;
  }
  step m (begins now start_time k) =
      with_pair (begin_execute py timeout_message now start_time k m.task_timeout (pair_of m)) m
  step m (finishes now start_time k outcome in_time) =
      with_pair
        (finish_execute py timeout_message now start_time k m.task_timeout outcome in_time
          (pair_of m)).1
        m
  step m (reads now k) = (get_task_status py now k m).1

  unfoldable pub run : TaskManager F R → List (Event F R) → TaskManager F R
  run m [] = m
  run m (e ∷ es) = run (step m e) es
