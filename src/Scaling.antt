-- ===== src/Scaling.antt =====
-- `AdaptiveWorkerManager` of fish_async_task/worker/adaptive.py. Times are ticks of the clock, and
-- `now` is what `time.time()` returns; the use of the processor and its threshold are numbers of
-- one unit. A cooldown below 0 is not modelled. The manager only answers: the pool acts on the
-- answers.
pub mod Cooldown
pub mod Bounds
use fish_async_task.Prelude.{
  ℕ, suc, ◌+◌, ◌-◌, Bool, true, false, ◌&&◌, Option, none, some, List, [], ◌∷◌, ◌++◌, ltb, leb, eqb,
  if◌then◌else◌, length, drop,
}

pub record AdaptiveWorkerManager : Type 0 where
  pub min_workers : ℕ
  pub max_workers : ℕ
  pub cpu_threshold : ℕ
  pub queue_threshold_high : ℕ
  pub scale_up_cooldown : ℕ
  pub scale_down_cooldown : ℕ
  pub use_cpu_monitoring : Bool
  pub last_scale_up : ℕ
  pub last_scale_down : ℕ
  pub task_times : List ℕ

-- `cpu_usage is not None`, `cpu_usage < self.cpu_threshold` and `queue_size > current_workers`
abbrev pub cpu_allows :
    (cpu_threshold current_workers queue_size : ℕ) → (cpu_usage : Option ℕ) → Bool
cpu_allows cpu_threshold current_workers queue_size none = false
cpu_allows cpu_threshold current_workers queue_size (some c) =
    ltb c cpu_threshold && ltb current_workers queue_size

-- `self._last_scale_up = now; return True`
abbrev pub approve_up : ℕ → AdaptiveWorkerManager → Bool × AdaptiveWorkerManager
approve_up now m = (true, record m { last_scale_up = now })

unfoldable pub should_scale_up :
    (now : ℕ)
    → AdaptiveWorkerManager
    → (current_workers queue_size : ℕ) (cpu_usage : Option ℕ) → Bool × AdaptiveWorkerManager
should_scale_up now m current_workers queue_size cpu_usage =
    if leb m.max_workers current_workers
    then (false, m)
    else (if ltb now (m.last_scale_up + m.scale_up_cooldown)
        then (false, m)
        else (if ltb m.queue_threshold_high queue_size
            then approve_up now m
            else (if m.use_cpu_monitoring
                  && cpu_allows m.cpu_threshold current_workers queue_size cpu_usage
                then approve_up now m
                else (false, m))))

-- `idle_time is not None`, `self.scale_down_cooldown > 0` and `idle_time >=
-- self.scale_down_cooldown`
abbrev pub idle_enough : (scale_down_cooldown : ℕ) → (idle_time : Option ℕ) → Bool
idle_enough scale_down_cooldown none = false
idle_enough scale_down_cooldown (some t) =
    if leb scale_down_cooldown 0 then false else leb scale_down_cooldown t

unfoldable pub should_scale_down :
    (now : ℕ)
    → AdaptiveWorkerManager
    → (current_workers queue_size : ℕ) (idle_time : Option ℕ) → Bool × AdaptiveWorkerManager
should_scale_down now m current_workers queue_size idle_time =
    if leb current_workers m.min_workers
    then (false, m)
    else (if ltb now (m.last_scale_down + m.scale_down_cooldown)
        then (false, m)
        else (if eqb queue_size 0 && idle_enough m.scale_down_cooldown idle_time
            then (true, record m { last_scale_down = now })
            else (false, m)))

-- `self._task_times.append(task_time)` on a deque of at most 100 times.
unfoldable pub record_task_time : ℕ → AdaptiveWorkerManager → AdaptiveWorkerManager
record_task_time task_time m =
    let times = m.task_times ++ (task_time ∷ []) in
    record m { task_times = drop (length times - 100) times }
