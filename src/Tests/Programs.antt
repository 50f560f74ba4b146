-- ===== src/Tests/Programs.antt =====
-- A program with one task, "a", over a store of two shards.
use fish_async_task.Prelude.{
  ℕ, ◌≡◌, refl, String, Bool, true, false, Option, none, some, List, [], ◌∷◌, arith, select,
}
use fish_async_task.Prelude.Int.{pos}
use fish_async_task.Prelude.Heapq.{WeakOrder, ordered_heapq}
use fish_async_task.Status.{completed}
use fish_async_task.Status.Merge.{Update}
use fish_async_task.Status.Store.{Store, Runtime, expires_before, new}
use fish_async_task.Prelude.Dict
use fish_async_task.Status.Store.View.{IsValid}
use fish_async_task.Status.Store.Resize.{new-IsValid}
use fish_async_task.Status.Manager.{read_current, or_unknown}
use fish_async_task.Status.Manager.History.{concerns, merge_all}
use fish_async_task.Status.Batch.{TaskStatusManager}
use fish_async_task.Executor.{TaskExecutor, returns, system_exit}
use fish_async_task.Executor.Execution.{has_timeout}
use fish_async_task.Executor
use fish_async_task.Executor.Execution
use fish_async_task.Executor.Timeouts.{Tracked, track_timed_out_task-Tracked}
use fish_async_task.TaskManager.{
  TaskManager, Event, puts, notes, schedules, scales, takes, begins, finishes, step, run,
  get_task_status,
}
use fish_async_task.TaskManager.History.{all_updates}
use fish_async_task.TaskManager.Reading.{get_task_status_merged}
use fish_async_task.TaskManager.Exits.{exit_status}

abbrev never : String → String → Bool
never a b = false

expiry_order : WeakOrder (expires_before never)
expiry_order = record { asymm = λ a b h. ground arith; trans = λ a b c h k. ground arith }

abbrev py : Runtime
py = record {
  hash = λ k. pos 4;
  id_lt = never;
  heapq = ordered_heapq (expires_before never) expiry_order;
}

abbrev timeout_message : String → Option ℕ → String
timeout_message k t = "timeout"

abbrev empty_store : Store ℕ
empty_store = new 2 10

abbrev executor : List (Update ℕ) → TaskExecutor ℕ
executor waiting = record {
  batch_size = 100;
  batch_flush_interval = 50;
  batch_updates = waiting;
  last_batch_flush = 0;
  timed_out_tasks = [];
  task_cancel_events = [];
}

abbrev status_manager : TaskStatusManager ℕ
status_manager = record {
  sharded_status = empty_store;
  batch_size = 100;
  batch_flush_interval = 50;
  batch_updater = none;
  use_batch_update = true;
}

abbrev program : List (Update ℕ) → TaskManager ℕ ℕ
program waiting = record {
  worker_manager = record {
    min_workers = 1;
    max_workers = 4;
    idle_timeout = 60;
    adaptive_manager = none;
    task_queue = [];
    worker_threads = 0 ∷ [];
    alive = 0 ∷ [];
    next_thread = 1;
    idle_start_time = none;
  };
  task_executor = executor waiting;
  status_manager = status_manager;
  task_timeout = some 5;
  running_event = true;
  timers = 0;
  scale_scheduled = false;
  scale_scheduled_time = 0;
}

-- The task is noted in time.
abbrev in_order : List (Event ℕ ℕ)
in_order =
    puts "a" 7
    ∷ notes 1 "a"
    ∷ schedules 1
    ∷ takes 0 1
    ∷ begins 2 2 "a"
    ∷ scales 3 none
    ∷ finishes 4 2 "a" (returns (some 42)) true
    ∷ []

empty_store-IsValid : IsValid py empty_store
empty_store-IsValid = new-IsValid py 2 10 (omega arith)

get_task_status_merged_example :
    or_unknown (get_task_status py 5 "a" (run py timeout_message (program []) in_order)).0
    ≡ merge_all
        (read_current py empty_store "a")
        (select (concerns "a") (all_updates py timeout_message (some 5) in_order))
unfolding Execution.task_wrapper
get_task_status_merged_example =
    get_task_status_merged py timeout_message in_order 5 "a" (program []) empty_store-IsValid refl
      refl refl refl

exit_status_example :
    (or_unknown
      (get_task_status py 9 "a" (
        run py timeout_message
          (step py timeout_message
            (step py timeout_message
              (run py timeout_message (program []) (puts "a" 7 ∷ notes 1 "a" ∷ []))
              (begins 2 2 "a"))
            (finishes 4 2 "a" system_exit true))
          (puts "b" 8 ∷ notes 6 "b" ∷ begins 7 7 "b" ∷ []))).0).status
    ≡ some completed
exit_status_example =
    exit_status py timeout_message (puts "a" 7 ∷ notes 1 "a" ∷ [])
      (puts "b" 8 ∷ notes 6 "b" ∷ begins 7 7 "b" ∷ []) 4 2 2 9 "a" (program []) empty_store-IsValid
      refl refl refl refl refl refl

abbrev tracking : TaskExecutor ℕ
tracking = record {
  batch_size = 100;
  batch_flush_interval = 50;
  batch_updates = [];
  last_batch_flush = 0;
  timed_out_tasks = ("a", 10) ∷ ("b", 3000) ∷ [];
  task_cancel_events = [];
}

track_timed_out_task-Tracked_example :
    Tracked 4000 "c"
      (("a", 10) ∷ ("b", 3000) ∷ [])
      (Executor.track_timed_out_task 4000 "c" tracking).timed_out_tasks
unfolding Dict.has
track_timed_out_task-Tracked_example =
    track_timed_out_task-Tracked 4000 "c" tracking (refl, (refl, tt)) (omega arith)
