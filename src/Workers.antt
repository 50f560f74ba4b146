-- ===== src/Workers.antt =====
-- `WorkerManager` of fish_async_task/worker/core.py. A thread is a number; `worker_threads` is the
-- list that the manager keeps, and `alive` the threads whose `_worker_loop` has not ended. Every
-- method that changes the list holds `threads_lock` over the tests and the change, and is one step,
-- but `_check_idle_timeout`, which gives it up in between. The use of the processor is an argument,
-- and so is `now`. A task is an opaque `T`, and `none` in the queue is the signal to stop.
pub mod Bounds
pub mod Idle
pub mod Signals
use fish_async_task.Prelude.{
  ℕ, zero, suc, ◌+◌, ◌-◌, Bool, true, false, not, ◌&&◌, ◌||◌, Option, none, some, List, [], ◌∷◌,
  ◌++◌, ltb, leb, eqb, if◌then◌else◌, length, any,
}
use fish_async_task.Scaling.{
  AdaptiveWorkerManager, should_scale_up, should_scale_down, record_task_time,
}

pub record WorkerManager (T : Type 0) : Type 0 where
  pub min_workers : ℕ
  pub max_workers : ℕ
  pub idle_timeout : ℕ
  pub adaptive_manager : Option AdaptiveWorkerManager
  pub task_queue : List (Option T)
  pub worker_threads : List ℕ
  pub alive : List ℕ
  pub next_thread : ℕ
  pub idle_start_time : Option ℕ

-- `thread in self.worker_threads`
abbrev pub is_listed : ℕ → List ℕ → Bool
is_listed i xs = any (eqb i) xs

-- `self.worker_threads.remove(thread)`, which removes the first
unfoldable pub remove_first : ℕ → List ℕ → List ℕ
remove_first i [] = []
remove_first i (j ∷ xs) = if eqb i j then xs else j ∷ remove_first i xs

-- The manager's part of `scale_up_workers_if_needed`: the answer and the adaptive manager after it.
abbrev pub wants_worker :
    (now : ℕ) (cpu_usage : Option ℕ) (threads queue_size : ℕ)
    → Option AdaptiveWorkerManager
    → Bool × Option AdaptiveWorkerManager
wants_worker now cpu_usage threads queue_size none = (ltb threads queue_size, none)
wants_worker now cpu_usage threads queue_size (some a) =
    let (answer, a') = should_scale_up now a threads queue_size cpu_usage in (answer, some a')

-- `record_task_time`
abbrev pub note_time : ℕ → Option AdaptiveWorkerManager → Option AdaptiveWorkerManager
note_time task_time none = none
note_time task_time (some a) = some (record_task_time task_time a)

module _ {T : Type 0} where
  -- `_create_and_start_worker`
  unfoldable pub create_and_start_worker : WorkerManager T → WorkerManager T
  create_and_start_worker m = record m {
    worker_threads = m.worker_threads ++ (m.next_thread ∷ []);
    alive = m.alive ++ (m.next_thread ∷ []);
    next_thread = suc m.next_thread;
  }

  -- The loop of `start_initial_workers`.
  unfoldable pub start_workers : ℕ → WorkerManager T → WorkerManager T
  start_workers zero m = m
  start_workers (suc n) m = start_workers n (create_and_start_worker m)

  unfoldable pub start_initial_workers : WorkerManager T → WorkerManager T
  unfolding start_workers
  start_initial_workers m = start_workers m.min_workers m

  unfoldable pub scale_up_workers_if_needed :
      (now : ℕ) (cpu_usage : Option ℕ) → WorkerManager T → WorkerManager T
  unfolding create_and_start_worker
  scale_up_workers_if_needed now cpu_usage m =
      let (answer, a) =
        wants_worker now cpu_usage (length m.worker_threads) (length m.task_queue)
          m.adaptive_manager in
      if leb m.max_workers (length m.worker_threads)
      then m
      else (if answer
          then create_and_start_worker (record m { adaptive_manager = a })
          else record m { adaptive_manager = a })

  -- `_try_exit_if_above_min`, called by thread `i`.
  unfoldable pub try_exit_if_above_min : ℕ → WorkerManager T → Bool × WorkerManager T
  try_exit_if_above_min i m =
      if leb (length m.worker_threads) m.min_workers
      then (true, m)
      else (if is_listed i m.worker_threads
          then (true, record m { worker_threads = remove_first i m.worker_threads })
          else (false, m))

  -- The first half of `_check_idle_timeout`: whether the thread shall try to exit.
  abbrev pub idle_over :
      (now idle_start : ℕ) → WorkerManager T → Option AdaptiveWorkerManager → Bool × WorkerManager T
  idle_over now idle_start m none = (leb (idle_start + m.idle_timeout) now, m)
  idle_over now idle_start m (some a) =
      let (answer, a') =
        should_scale_down now a (length m.worker_threads) (length m.task_queue)
          (some (now - idle_start)) in
      (answer, record m { adaptive_manager = some a' })

  -- The second half. Between the two other threads may run.
  abbrev pub exit_if_over : ℕ → Bool × WorkerManager T → Bool × WorkerManager T
  exit_if_over i (true, m) = try_exit_if_above_min i m
  exit_if_over i (false, m) = (false, m)

  -- `_check_idle_timeout`, where nothing runs in between.
  unfoldable pub check_idle_timeout :
      (now : ℕ) → ℕ → Option ℕ → WorkerManager T → Bool × WorkerManager T
  unfolding try_exit_if_above_min
  check_idle_timeout now i none m = (false, m)
  check_idle_timeout now i (some idle_start) m =
      exit_if_over i (idle_over now idle_start m m.adaptive_manager)

  -- The thread's `break` and the `finally` behind it.
  abbrev pub ends : ℕ → WorkerManager T → WorkerManager T
  ends i m = record m { alive = remove_first i m.alive }

  -- The clause for `queue.Empty` in `_worker_loop`: what the thread remembers as the start of its
  -- idleness, and whether it ends.
  abbrev pub then_leave : ℕ → Option ℕ → Bool × WorkerManager T → Option ℕ × WorkerManager T
  then_leave i idle_start (true, m) = (idle_start, ends i m)
  then_leave i idle_start (false, m) = (idle_start, m)

  abbrev pub note_idle : ℕ → WorkerManager T → Option AdaptiveWorkerManager → WorkerManager T
  note_idle now m none = m
  note_idle now m (some a) = record m { idle_start_time = some now }

  unfoldable pub idle_round :
      (now : ℕ) → ℕ → Option ℕ → WorkerManager T → Option ℕ × WorkerManager T
  unfolding check_idle_timeout
  idle_round now i none m = (some now, note_idle now m m.adaptive_manager)
  idle_round now i (some idle_start) m =
      then_leave i (some idle_start) (check_idle_timeout now i (some idle_start) m)

  -- A round of `_worker_loop` that takes the front of the queue: the task that is to be executed,
  -- or the signal, upon which the thread ends.
  abbrev pub take_front : ℕ → WorkerManager T → List (Option T) → Option T × WorkerManager T
  take_front i m [] = (none, m)
  take_front i m (none ∷ rest) = (none, ends i (record m { task_queue = rest }))
  take_front i m (some t ∷ rest) = (some t, record m { task_queue = rest })

  abbrev pub timed : (task_time : ℕ) → Option T × WorkerManager T → Option T × WorkerManager T
  timed task_time (none, m) = (none, m)
  timed task_time (some t, m) =
      (some t, record m { adaptive_manager = note_time task_time m.adaptive_manager })

  unfoldable pub busy_round : ℕ → (task_time : ℕ) → WorkerManager T → Option T × WorkerManager T
  busy_round i task_time m = timed task_time (take_front i m m.task_queue)

-- The exceptions that `_handle_task_exception` tells apart, in the order of its tests.
pub data TaskException : Type 0 where
  queue_full timeout_error io_error memory_error runtime_error programming_error other_error :
      TaskException

pub data Handling : Type 0 where
  goes_on : Handling
  reraises : Handling

-- `_handle_task_exception` of an exception that `except Exception` catches. `KeyboardInterrupt` and
-- `SystemExit`, for which it tests too, are none.
unfoldable pub handle_task_exception : TaskException → Handling
handle_task_exception queue_full = goes_on
handle_task_exception timeout_error = goes_on
handle_task_exception io_error = goes_on
handle_task_exception memory_error = goes_on
handle_task_exception runtime_error = goes_on
handle_task_exception programming_error = reraises
handle_task_exception other_error = goes_on

-- Whether `put_nowait` raises `queue.Full`, and `put(None, timeout)` at the end of its wait.
abbrev pub full : {T : Type 0} → (maxsize : ℕ) → WorkerManager T → Bool
full maxsize m = leb maxsize (length m.task_queue)

abbrev pub put_signal : {T : Type 0} → WorkerManager T → WorkerManager T
put_signal m = record m { task_queue = m.task_queue ++ (none ∷ []) }

-- The loop of `send_shutdown_signals` over the threads; it ends when the queue has no room before
-- the put and none when its wait ends. `before n` and `waiting n` are what the other threads do
-- before the n-th put and during its wait.
unfoldable pub send_signals :
    {T : Type 0}
    → (maxsize : ℕ) → (before waiting : ℕ → WorkerManager T → WorkerManager T) → (left sent : ℕ)
    → WorkerManager T
    → WorkerManager T
send_signals maxsize before waiting zero sent m = m
send_signals maxsize before waiting (suc left) sent m =
    let at_once = before sent m in
    let late = waiting sent at_once in
    let rest = send_signals maxsize before waiting left (suc sent) in
    let sent_at_once = rest (put_signal at_once) in
    let sent_late = rest (put_signal late) in
    if full maxsize at_once then (if full maxsize late then late else sent_late) else sent_at_once

-- The number of threads is read first.
unfoldable pub send_shutdown_signals :
    {T : Type 0}
    → (maxsize : ℕ) → (before waiting : ℕ → WorkerManager T → WorkerManager T) → WorkerManager T
    → WorkerManager T
unfolding send_signals
send_shutdown_signals maxsize before waiting m =
    send_signals maxsize before waiting (length m.worker_threads) 0 m
