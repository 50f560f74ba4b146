-- ===== src/Tests/Workers.antt =====
-- A manager of one to three threads.
use fish_async_task.Prelude.{
  ◌≡◌, ℕ, ◌≤◌, false, length, replicate, refl, Option, none, some, List, [], ◌∷◌, arith, drop,
}
use fish_async_task.Workers.{WorkerManager, start_initial_workers, send_shutdown_signals}
use fish_async_task.Scaling.{AdaptiveWorkerManager}
use fish_async_task.Workers.Idle
use fish_async_task.Workers.Bounds.{
  Event, scales_up, tries_exit, takes, fills, run, WithinLimits, started-WithinLimits,
}
use fish_async_task.Workers.Signals.{Sent, IsTakenFrom, OnlyTakes, send_shutdown_signals-Sent}

abbrev manager : List ℕ → List (Option ℕ) → WorkerManager ℕ
manager threads q = record {
  min_workers = 1;
  max_workers = 3;
  idle_timeout = 60;
  adaptive_manager = none;
  task_queue = q;
  worker_threads = threads;
  alive = threads;
  next_thread = 9;
  idle_start_time = none;
}

abbrev events : List (Event ℕ)
events =
    fills (some 5 ∷ some 6 ∷ []) ∷ scales_up 3 none ∷ takes 9 1 ∷ tries_exit 9 ∷ tries_exit 10 ∷ []

started-WithinLimits_example : WithinLimits 1 3 (run (start_initial_workers (manager [] [])) events)
started-WithinLimits_example = started-WithinLimits events (manager [] []) refl (omega arith)

-- A worker takes a task from the front while a signal waits.
abbrev works : ℕ → WorkerManager ℕ → WorkerManager ℕ
works n m = record m { task_queue = drop 1 m.task_queue }

abbrev rests : ℕ → WorkerManager ℕ → WorkerManager ℕ
rests n m = m

abbrev busy : WorkerManager ℕ
busy = manager (4 ∷ 5 ∷ []) (some 7 ∷ some 8 ∷ [])

works_takes : OnlyTakes works
works_takes n m = go m.task_queue
  where
    go : (q : List (Option ℕ)) → IsTakenFrom q (drop 1 q)
    go [] = record { taken = []; same = refl }
    go (x ∷ q) = record { taken = x ∷ []; same = refl }

send_shutdown_signals-Sent_example :
    Sent 2 (some 7 ∷ some 8 ∷ []) 2 (send_shutdown_signals 2 rests works busy).task_queue
send_shutdown_signals-Sent_example =
    send_shutdown_signals-Sent 2 rests works busy (λ n m. record { taken = []; same = refl })
      works_takes

abbrev strategy : AdaptiveWorkerManager
strategy = record {
  min_workers = 1;
  max_workers = 3;
  cpu_threshold = 80;
  queue_threshold_high = 10;
  scale_up_cooldown = 5;
  scale_down_cooldown = 10;
  use_cpu_monitoring = false;
  last_scale_up = 0;
  last_scale_down = 0;
  task_times = [];
}

abbrev adaptive : WorkerManager ℕ
adaptive = record (manager [] []) { adaptive_manager = some strategy }

-- A second thread is started for a long queue; then both find themselves idle for long.
abbrev idle_events : List (Idle.Event ℕ)
idle_events =
    Idle.queues (replicate 11 (some 5))
    ∷ Idle.scales 6 none
    ∷ Idle.queues []
    ∷ Idle.notes 3
    ∷ Idle.idles 30 9 (some 7)
    ∷ Idle.idles 60 10 (some 7)
    ∷ []

started_pool_lives_example :
    ((Idle.run (start_initial_workers adaptive) idle_events).alive
      ≡ (Idle.run (start_initial_workers adaptive) idle_events).worker_threads)
    × (1 ≤ length (Idle.run (start_initial_workers adaptive) idle_events).alive)
started_pool_lives_example =
    Idle.started_pool_lives idle_events strategy adaptive refl refl refl refl
