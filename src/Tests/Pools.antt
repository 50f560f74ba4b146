-- ===== src/Tests/Pools.antt =====
-- A pool of two workers under a manager that asks for five ticks between two approvals.
use fish_async_task.Prelude.{refl, true, none, some, List, [], ◌∷◌}
use fish_async_task.Scaling.Bounds.{Query, asks_up, asks_down, Pool, ask_all}
use fish_async_task.Scaling.Cooldown.{Remembers, ask_all-Remembers}

abbrev pool : Pool
pool = record {
  workers = 2;
  manager = record {
    min_workers = 1;
    max_workers = 3;
    cpu_threshold = 80;
    queue_threshold_high = 100;
    scale_up_cooldown = 5;
    scale_down_cooldown = 30;
    use_cpu_monitoring = true;
    last_scale_up = 0;
    last_scale_down = 0;
    task_times = [];
  };
  scale_ups = [];
}

abbrev queries : List Query
queries =
    asks_up 10 200 none
    ∷ asks_up 12 200 none
    ∷ asks_up 16 4 (some 20)
    ∷ asks_down 50 0 (some 40)
    ∷ []

ask_all-Remembers_example : Remembers 5 (ask_all pool queries)
ask_all-Remembers_example =
    ask_all-Remembers queries 5 pool (record { same_cooldown = refl; latest = tt; spaced = tt })
