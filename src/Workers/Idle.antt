-- ===== src/Workers/Idle.antt =====
-- What becomes of threads that are idle, under the adaptive manager, which is on by default.
use fish_async_task.Prelude.{
  ℕ, zero, suc, ◌+◌, ◌≤◌, ◌-◌, ◌≡◌, refl, ◌∙◌, sym, ap, subst, true, false, Option, none, some,
  List, [], ◌∷◌, ◌++◌, arith, leb, length, length-append, Bool-cases, inl, inr,
}
use fish_async_task.Scaling.{
  AdaptiveWorkerManager, should_scale_up, should_scale_down, record_task_time,
}
use fish_async_task.Workers.{
  WorkerManager, remove_first, is_listed, create_and_start_worker, scale_up_workers_if_needed,
  try_exit_if_above_min, exit_if_over, idle_over, note_idle, check_idle_timeout, then_leave,
  idle_round, start_workers, wants_worker, note_time, start_initial_workers,
}

-- What happens in the pool: a round of thread `i` that finds no task, with nothing in between; a
-- check for more threads; the queue changes, by callers or as a thread takes a task; the time of an
-- executed task is noted.
pub data Event (T : Type 0) : Type 0 where
  idles : (now i : ℕ) → (idle_start : Option ℕ) → Event T
  scales : (now : ℕ) → (cpu_usage : Option ℕ) → Event T
  queues : List (Option T) → Event T
  notes : (task_time : ℕ) → Event T

remove_first-length : (i : ℕ) (xs : List ℕ) → length xs ≤ suc (length (remove_first i xs))
unfolding remove_first
remove_first-length i [] = omega arith
remove_first-length i (x ∷ xs) = ground (arith, remove_first-length i xs)

-- There is an adaptive manager with the bound of the manager, `low`, at least that many threads are
-- listed, and the listed threads are those that are alive.
pub record IsStaffed {T : Type 0} (low : ℕ) (m : WorkerManager T) : Type 0 where
  pub strategy : AdaptiveWorkerManager
  pub adaptive : m.adaptive_manager ≡ some strategy
  pub same_min : strategy.min_workers ≡ low
  pub same_low : m.min_workers ≡ low
  pub enough : low ≤ length m.worker_threads
  pub all_alive : m.alive ≡ m.worker_threads

should_scale_down-AboveMin :
    (now : ℕ) (a : AdaptiveWorkerManager) (threads queue_size : ℕ) (idle_time : Option ℕ)
    → (should_scale_down now a threads queue_size idle_time).0 ≡ true
    → suc a.min_workers ≤ threads
unfolding should_scale_down
should_scale_down-AboveMin now a threads queue_size idle_time h = ground arith

min-should_scale_down :
    (now : ℕ) (a : AdaptiveWorkerManager) (threads queue_size : ℕ) (idle_time : Option ℕ)
    → (should_scale_down now a threads queue_size idle_time).1.min_workers ≡ a.min_workers
unfolding should_scale_down
min-should_scale_down now a threads queue_size idle_time = ground arith

min-should_scale_up :
    (now : ℕ) (a : AdaptiveWorkerManager) (threads queue_size : ℕ) (cpu_usage : Option ℕ)
    → (should_scale_up now a threads queue_size cpu_usage).1.min_workers ≡ a.min_workers
unfolding should_scale_up
min-should_scale_up now a threads queue_size cpu_usage = ground arith

module _ {T : Type 0} where
  with_strategy :
      (low : ℕ) (m : WorkerManager T) (a : AdaptiveWorkerManager)
      → a.min_workers ≡ low
      → m.min_workers ≡ low
      → low ≤ length m.worker_threads
      → m.alive ≡ m.worker_threads
      → IsStaffed low (record m { adaptive_manager = some a })
  with_strategy low m a e l f g = record {
    strategy = a;
    adaptive = refl;
    same_min = e;
    same_low = l;
    enough = f;
    all_alive = g;
  }

  -- Above the minimum, the thread that leaves the list ends, and one that stays does not.
  leave-IsStaffed :
      (low i s : ℕ) (m : WorkerManager T)
      → IsStaffed low m
      → suc low ≤ length m.worker_threads
      → IsStaffed low (then_leave i (some s) (try_exit_if_above_min i m)).1
  unfolding try_exit_if_above_min
  leave-IsStaffed low i s m h above =
      let more : leb (length m.worker_threads) m.min_workers ≡ false = ground (arith, h.same_low) in
      elim (Bool-cases (is_listed i m.worker_threads)) [
        | inl listed ↦
            rw (more, listed)
              (record {
                strategy = h.strategy;
                adaptive = h.adaptive;
                same_min = h.same_min;
                same_low = h.same_low;
                enough = omega (arith, remove_first-length i m.worker_threads);
                all_alive = ap (remove_first i) h.all_alive;
              })
        | inr unlisted ↦ rw (more, unlisted) h
      ]

  idle_over-IsStaffed :
      (low now i s : ℕ) (m : WorkerManager T) (h : IsStaffed low m)
      → IsStaffed low
          (then_leave i (some s) (exit_if_over i (idle_over now s m (some h.strategy)))).1
  idle_over-IsStaffed low now i s m h =
      let n = length m.worker_threads in
      let q = length m.task_queue in
      let t = some (now - s) in
      let r = should_scale_down now h.strategy n q t in
      let w =
        with_strategy low m r.1 (min-should_scale_down now h.strategy n q t ∙ h.same_min) h.same_low
          h.enough h.all_alive in
      elim (Bool-cases r.0) [
        | inl over ↦ rw over (
            leave-IsStaffed low i s (record m { adaptive_manager = some r.1 }) w
              (omega (arith, h.same_min, should_scale_down-AboveMin now h.strategy n q t over)))
        | inr not_over ↦ rw not_over w
      ]

  idle_round-IsStaffed :
      (low now i : ℕ) (idle_start : Option ℕ) (m : WorkerManager T)
      → IsStaffed low m
      → IsStaffed low (idle_round now i idle_start m).1
  unfolding idle_round check_idle_timeout
  idle_round-IsStaffed low now i none m h =
      subst (λ o. IsStaffed low (note_idle now m o)) (sym h.adaptive)
        (record {
          strategy = h.strategy;
          adaptive = h.adaptive;
          same_min = h.same_min;
          same_low = h.same_low;
          enough = h.enough;
          all_alive = h.all_alive;
        })
  idle_round-IsStaffed low now i (some s) m h =
      subst (λ o. IsStaffed low (then_leave i (some s) (exit_if_over i (idle_over now s m o))).1)
        (sym h.adaptive) (idle_over-IsStaffed low now i s m h)

  started-IsStaffed :
      (low : ℕ) (m : WorkerManager T) → IsStaffed low m → IsStaffed low (create_and_start_worker m)
  unfolding create_and_start_worker
  started-IsStaffed low m h = record {
    strategy = h.strategy;
    adaptive = h.adaptive;
    same_min = h.same_min;
    same_low = h.same_low;
    enough = omega (arith, h.enough, length-append m.worker_threads (m.next_thread ∷ []));
    all_alive = ap (λ xs. xs ++ (m.next_thread ∷ [])) h.all_alive;
  }

  wants-IsStaffed :
      (low now : ℕ) (cpu_usage : Option ℕ) (threads queue_size : ℕ) (m : WorkerManager T)
      → IsStaffed low m
      → IsStaffed low (record m {
        adaptive_manager = (wants_worker now cpu_usage threads queue_size m.adaptive_manager).1;
      })
  wants-IsStaffed low now cpu_usage threads queue_size m h =
      subst
        (λ o.
          IsStaffed low
            (record m { adaptive_manager = (wants_worker now cpu_usage threads queue_size o).1 }))
        (sym h.adaptive)
        (with_strategy low m (should_scale_up now h.strategy threads queue_size cpu_usage).1
          (min-should_scale_up now h.strategy threads queue_size cpu_usage ∙ h.same_min) h.same_low
          h.enough h.all_alive)

  scaled-IsStaffed :
      (low now : ℕ) (cpu_usage : Option ℕ) (m : WorkerManager T)
      → IsStaffed low m
      → IsStaffed low (scale_up_workers_if_needed now cpu_usage m)
  unfolding scale_up_workers_if_needed
  scaled-IsStaffed low now cpu_usage m h =
      let n = length m.worker_threads in
      let q = length m.task_queue in
      let r = wants_worker now cpu_usage n q m.adaptive_manager in
      let w = wants-IsStaffed low now cpu_usage n q m h in
      elim (Bool-cases (leb m.max_workers n)) [
        | inl full ↦ rw full h
        | inr room ↦ elim (Bool-cases r.0) [
          | inl wanted ↦
              rw (room, wanted) (started-IsStaffed low (record m { adaptive_manager = r.1 }) w)
          | inr unwanted ↦ rw (room, unwanted) w
        ]
      ]

  unfoldable pub step : WorkerManager T → Event T → WorkerManager T
  step m (idles now i idle_start) = (idle_round now i idle_start m).1
  step m (scales now cpu_usage) = scale_up_workers_if_needed now cpu_usage m
  step m (queues q) = record m { task_queue = q }
  step m (notes task_time) = record m { adaptive_manager = note_time task_time m.adaptive_manager }

  unfoldable pub run : WorkerManager T → List (Event T) → WorkerManager T
  unfolding step
  run m [] = m
  run m (e ∷ es) = run (step m e) es

  step-IsStaffed :
      (low : ℕ) (m : WorkerManager T) (e : Event T) → IsStaffed low m → IsStaffed low (step m e)
  unfolding step record_task_time
  step-IsStaffed low m (idles now i idle_start) h = idle_round-IsStaffed low now i idle_start m h
  step-IsStaffed low m (scales now cpu_usage) h = scaled-IsStaffed low now cpu_usage m h
  step-IsStaffed low m (queues q) h = record {
    strategy = h.strategy;
    adaptive = h.adaptive;
    same_min = h.same_min;
    same_low = h.same_low;
    enough = h.enough;
    all_alive = h.all_alive;
  }
  step-IsStaffed low m (notes task_time) h =
      subst (λ o. IsStaffed low (record m { adaptive_manager = note_time task_time o }))
        (sym h.adaptive)
        (with_strategy low m (record_task_time task_time h.strategy) h.same_min h.same_low h.enough
          h.all_alive)

  run-IsStaffed :
      (low : ℕ) (m : WorkerManager T) (es : List (Event T))
      → IsStaffed low m
      → IsStaffed low (run m es)
  unfolding run
  run-IsStaffed low m [] h = h
  run-IsStaffed low m (e ∷ es) h = run-IsStaffed low (step m e) es (step-IsStaffed low m e h)

  start-IsStaffed :
      (n : ℕ) (a : AdaptiveWorkerManager) (m : WorkerManager T)
      → m.adaptive_manager ≡ some a
      → a.min_workers ≡ m.min_workers
      → m.min_workers ≤ n + length m.worker_threads
      → m.alive ≡ m.worker_threads
      → IsStaffed m.min_workers (start_workers n m)
  unfolding start_workers create_and_start_worker
  start-IsStaffed zero a m e same enough alive = record {
    strategy = a;
    adaptive = e;
    same_min = same;
    same_low = refl;
    enough = omega (arith, enough);
    all_alive = alive;
  }
  start-IsStaffed (suc n) a m e same enough alive =
      start-IsStaffed n a (create_and_start_worker m) e same
        (omega (arith, enough, length-append m.worker_threads (m.next_thread ∷ [])))
        (ap (λ xs. xs ++ (m.next_thread ∷ [])) alive)

  -- Let a manager start its threads under an adaptive manager that has its `min_workers`, as
  -- `__init__` makes it. However long threads are idle, whatever the queue is and whenever more are
  -- started, the listed threads are those that are alive, and at least `min_workers`. That is:
  -- while no thread is interrupted between its idle test and its exit, takes a signal to stop,
  -- finds the manager stopped or ends by an exception.
  pub started_pool_lives :
      (es : List (Event T)) (a : AdaptiveWorkerManager) (m : WorkerManager T)
      → m.adaptive_manager ≡ some a
      → a.min_workers ≡ m.min_workers
      → m.worker_threads ≡ []
      → m.alive ≡ []
      → (let m' = run (start_initial_workers m) es in
          (m'.alive ≡ m'.worker_threads) × (m.min_workers ≤ length m'.alive))
  unfolding start_initial_workers
  started_pool_lives es a m e same listed alive =
      let s = start-IsStaffed m.min_workers a m e same (omega arith) (alive ∙ sym listed) in
      let h = run-IsStaffed m.min_workers (start_workers m.min_workers m) es s in
      (h.all_alive, omega (arith, h.enough, ap length h.all_alive))
