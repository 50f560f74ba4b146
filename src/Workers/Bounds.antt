-- ===== src/Workers/Bounds.antt =====
-- How many threads the manager lists.
use fish_async_task.Prelude.{
  ℕ, zero, suc, ◌+◌, ◌≤◌, ◌≡◌, refl, true, Option, none, some, List, [], ◌∷◌, arith, length,
  length-append,
}
use fish_async_task.Scaling.{AdaptiveWorkerManager}
use fish_async_task.Workers.{
  WorkerManager, is_listed, remove_first, create_and_start_worker, start_workers,
  start_initial_workers, scale_up_workers_if_needed, try_exit_if_above_min, idle_over, busy_round,
  timed, take_front,
}

-- What the threads do to the manager, in any order: the caller of `submit_task` scales up; a thread
-- finds that it has been idle for too long, and, at any later moment, tries to exit; a thread takes
-- the front of the queue; someone fills the queue.
pub data Event (T : Type 0) : Type 0 where
  scales_up : (now : ℕ) → (cpu_usage : Option ℕ) → Event T
  finds_idle : (now idle_start : ℕ) → Event T
  tries_exit : (i : ℕ) → Event T
  takes : (i task_time : ℕ) → Event T
  fills : List (Option T) → Event T

length-remove_first :
    (i : ℕ) (xs : List ℕ) → is_listed i xs ≡ true → suc (length (remove_first i xs)) ≡ length xs
unfolding remove_first
length-remove_first i [] h = absurd (ground arith)
length-remove_first i (j ∷ xs) h = ground (arith, length-remove_first i xs)

module _ {T : Type 0} where
  unfoldable pub step : WorkerManager T → Event T → WorkerManager T
  step m (scales_up now cpu_usage) = scale_up_workers_if_needed now cpu_usage m
  step m (finds_idle now idle_start) = (idle_over now idle_start m m.adaptive_manager).1
  step m (tries_exit i) = (try_exit_if_above_min i m).1
  step m (takes i task_time) = (busy_round i task_time m).1
  step m (fills q) = record m { task_queue = q }

  unfoldable pub run : WorkerManager T → List (Event T) → WorkerManager T
  run m [] = m
  run m (e ∷ es) = run (step m e) es

  -- The limits are those given, and the listed threads are within them.
  pub record WithinLimits (low high : ℕ) (m : WorkerManager T) : Type 0 where
    pub same_low : m.min_workers ≡ low
    pub same_high : m.max_workers ≡ high
    pub above : low ≤ length m.worker_threads
    pub below : length m.worker_threads ≤ high

  create-length :
      (m : WorkerManager T)
      → length (create_and_start_worker m).worker_threads ≡ suc (length m.worker_threads)
  unfolding create_and_start_worker
  create-length m = omega (arith, length-append {0} m.worker_threads (m.next_thread ∷ []))

  start_workers-WithinLimits :
      (n low high : ℕ) (m : WorkerManager T)
      → m.min_workers ≡ low
      → m.max_workers ≡ high
      → length m.worker_threads + n ≡ low
      → low ≤ high
      → WithinLimits low high (start_workers n m)
  unfolding start_workers
  start_workers-WithinLimits zero low high m l h e o = record {
    same_low = l;
    same_high = h;
    above = omega arith;
    below = omega arith;
  }
  start_workers-WithinLimits (suc n) low high m l h e o =
      start_workers-WithinLimits n low high (create_and_start_worker m)
        (unfold create_and_start_worker in l) (unfold create_and_start_worker in h)
        (omega (arith, create-length m)) o

  scale_up-WithinLimits :
      (low high now : ℕ) (cpu : Option ℕ) (m : WorkerManager T)
      → WithinLimits low high m
      → WithinLimits low high (scale_up_workers_if_needed now cpu m)
  unfolding scale_up_workers_if_needed create_and_start_worker
  scale_up-WithinLimits low high now cpu m w = ground (
    arith,
    w.same_low,
    w.same_high,
    w.above,
    w.below,
    length-append {0} m.worker_threads (m.next_thread ∷ []),
  )

  exit-WithinLimits :
      (low high i : ℕ) (m : WorkerManager T)
      → WithinLimits low high m
      → WithinLimits low high (try_exit_if_above_min i m).1
  unfolding try_exit_if_above_min
  exit-WithinLimits low high i m w =
      ground
        (arith, w.same_low, w.same_high, w.above, w.below, length-remove_first i m.worker_threads)

  idle_over-WithinLimits :
      (low high now idle_start : ℕ) (m : WorkerManager T) (o : Option AdaptiveWorkerManager)
      → WithinLimits low high m
      → WithinLimits low high (idle_over now idle_start m o).1
  idle_over-WithinLimits low high now idle_start m none w = w
  idle_over-WithinLimits low high now idle_start m (some a) w = record {
    same_low = w.same_low;
    same_high = w.same_high;
    above = w.above;
    below = w.below;
  }

  timed-WithinLimits :
      (low high i task_time : ℕ) (m : WorkerManager T) (q : List (Option T))
      → WithinLimits low high m
      → WithinLimits low high (timed task_time (take_front i m q)).1
  timed-WithinLimits low high i task_time m [] w = w
  timed-WithinLimits low high i task_time m (none ∷ q) w = record {
    same_low = w.same_low;
    same_high = w.same_high;
    above = w.above;
    below = w.below;
  }
  timed-WithinLimits low high i task_time m (some t ∷ q) w = record {
    same_low = w.same_low;
    same_high = w.same_high;
    above = w.above;
    below = w.below;
  }

  step-WithinLimits :
      (low high : ℕ) (m : WorkerManager T) (e : Event T)
      → WithinLimits low high m
      → WithinLimits low high (step m e)
  unfolding step busy_round
  step-WithinLimits low high m (scales_up now cpu) w = scale_up-WithinLimits low high now cpu m w
  step-WithinLimits low high m (finds_idle now idle_start) w =
      idle_over-WithinLimits low high now idle_start m m.adaptive_manager w
  step-WithinLimits low high m (tries_exit i) w = exit-WithinLimits low high i m w
  step-WithinLimits low high m (takes i task_time) w =
      timed-WithinLimits low high i task_time m m.task_queue w
  step-WithinLimits low high m (fills q) w = record {
    same_low = w.same_low;
    same_high = w.same_high;
    above = w.above;
    below = w.below;
  }

  run-WithinLimits :
      (es : List (Event T)) (low high : ℕ) (m : WorkerManager T)
      → WithinLimits low high m
      → WithinLimits low high (run m es)
  unfolding run
  run-WithinLimits [] low high m w = w
  run-WithinLimits (e ∷ es) low high m w =
      run-WithinLimits es low high (step m e) (step-WithinLimits low high m e w)

  -- When `min_workers` is not above `max_workers`, a manager that starts its initial threads lists,
  -- at any time afterwards, at least `min_workers` and at most `max_workers` threads, in whatever
  -- order it scales up and threads find themselves idle, try to exit and take from the queue.
  pub started-WithinLimits :
      (es : List (Event T)) (m : WorkerManager T)
      → m.worker_threads ≡ []
      → m.min_workers ≤ m.max_workers
      → WithinLimits m.min_workers m.max_workers (run (start_initial_workers m) es)
  unfolding start_initial_workers
  started-WithinLimits es m empty o =
      run-WithinLimits es m.min_workers m.max_workers (start_initial_workers m) (
        start_workers-WithinLimits m.min_workers m.min_workers m.max_workers m refl refl
          (rw empty (omega arith)) o)
