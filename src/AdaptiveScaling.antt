-- ===== src/AdaptiveScaling.antt =====
-- `AdaptiveWorkerManager` of fish_async_task/performance/adaptive_scaling.py, which is another
-- class than that of worker/adaptive.py. A tick is a millisecond, and the use of the processor is a
-- percentage. Each decision takes the lock of its times twice, to test the cooldown and to note an
-- approval, and is cut in between. `get_cpu_usage`, which asks psutil, is an argument. The texts
-- that explain a decision are left out.
pub mod Decisions
use fish_async_task.Prelude.{
  ℕ, zero, suc, ◌+◌, ◌-◌, ◌*◌, Bool, true, false, not, ◌&&◌, ◌||◌, Option, none, some, List, [],
  ◌∷◌, ◌++◌, ltb, leb, if◌then◌else◌, length, drop,
}

pub record AdaptiveWorkerManager : Type 0 where
  pub min_workers : ℕ
  pub max_workers : ℕ
  pub scale_up_cooldown : ℕ
  pub scale_down_cooldown : ℕ
  pub cpu_threshold : ℕ
  pub queue_threshold : ℕ
  pub task_times : List ℕ
  pub last_scale_up_time : ℕ
  pub last_scale_down_time : ℕ

-- The tests of `__init__`, each of which raises a `ValueError`.
abbrev pub is_refused :
    (min_workers max_workers scale_up_cooldown scale_down_cooldown cpu_threshold
      queue_threshold : ℕ)
    → Bool
is_refused min_workers max_workers scale_up_cooldown scale_down_cooldown cpu_threshold
      queue_threshold =
    ltb min_workers 1
    || ltb max_workers min_workers
    || leb scale_up_cooldown 0
    || leb scale_down_cooldown 0
    || not (ltb 0 cpu_threshold && leb cpu_threshold 100)
    || ltb queue_threshold 1

-- `__init__`; none is the `ValueError`.
unfoldable pub new :
    (min_workers max_workers scale_up_cooldown scale_down_cooldown cpu_threshold
      queue_threshold : ℕ)
    → Option AdaptiveWorkerManager
new min_workers max_workers scale_up_cooldown scale_down_cooldown cpu_threshold queue_threshold =
    if is_refused min_workers max_workers scale_up_cooldown scale_down_cooldown cpu_threshold
      queue_threshold
    then none
    else some (record {
      min_workers = min_workers;
      max_workers = max_workers;
      scale_up_cooldown = scale_up_cooldown;
      scale_down_cooldown = scale_down_cooldown;
      cpu_threshold = cpu_threshold;
      queue_threshold = queue_threshold;
      task_times = [];
      last_scale_up_time = 0;
      last_scale_down_time = 0;
    })

-- `cpu_usage is not None and cpu_usage > self.cpu_threshold`
abbrev pub is_busy : (cpu_threshold : ℕ) → (cpu_usage : Option ℕ) → Bool
is_busy cpu_threshold none = false
is_busy cpu_threshold (some c) = ltb cpu_threshold c

-- `should_scale_up` up to the noting of the time.
unfoldable pub wants_up :
    (now : ℕ)
    → AdaptiveWorkerManager
    → (current_workers queue_size : ℕ) (cpu_usage : Option ℕ) → Bool
wants_up now m current_workers queue_size cpu_usage =
    if leb m.max_workers current_workers
    then false
    else (if ltb now (m.last_scale_up_time + m.scale_up_cooldown)
        then false
        else (if is_busy m.cpu_threshold cpu_usage
            then false
            else ltb m.queue_threshold queue_size))

-- `self._last_scale_up_time = time.time()`
unfoldable pub note_up : (now : ℕ) → AdaptiveWorkerManager → AdaptiveWorkerManager
note_up now m = record m { last_scale_up_time = now }

-- `should_scale_up` with nothing in between.
unfoldable pub should_scale_up :
    (now : ℕ)
    → (current_workers queue_size : ℕ) (cpu_usage : Option ℕ) → AdaptiveWorkerManager
    → Bool × AdaptiveWorkerManager
unfolding wants_up note_up
should_scale_up now current_workers queue_size cpu_usage m =
    if wants_up now m current_workers queue_size cpu_usage
    then (true, note_up now m)
    else (false, m)

-- `sum(self._task_times)`
unfoldable pub sum : List ℕ → ℕ
sum [] = 0
sum (t ∷ ts) = t + sum ts

-- `avg_task_time > 0 and avg_task_time < 0.1`, where the average of no times is 0
unfoldable pub is_fast : List ℕ → Bool
unfolding sum
is_fast times = ltb 0 (sum times) && ltb (sum times) (100 * length times)

-- `should_scale_down` up to the noting of the time. `queue_size < self.queue_threshold / 2` divides
-- exactly.
unfoldable pub wants_down :
    (now : ℕ) → AdaptiveWorkerManager → (current_workers queue_size : ℕ) → Bool
unfolding is_fast
wants_down now m current_workers queue_size =
    if leb current_workers m.min_workers
    then false
    else (if ltb now (m.last_scale_down_time + m.scale_down_cooldown)
        then false
        else ltb (2 * queue_size) m.queue_threshold && is_fast m.task_times)

unfoldable pub note_down : (now : ℕ) → AdaptiveWorkerManager → AdaptiveWorkerManager
note_down now m = record m { last_scale_down_time = now }

-- `should_scale_down` with nothing in between.
unfoldable pub should_scale_down :
    (now : ℕ)
    → (current_workers queue_size : ℕ) → AdaptiveWorkerManager
    → Bool × AdaptiveWorkerManager
unfolding wants_down note_down
should_scale_down now current_workers queue_size m =
    if wants_down now m current_workers queue_size then (true, note_down now m) else (false, m)

-- `self._task_times.append(execution_time)` on a deque of at most 1000 times.
unfoldable pub record_task_time : ℕ → AdaptiveWorkerManager → AdaptiveWorkerManager
record_task_time execution_time m =
    let times = m.task_times ++ (execution_time ∷ []) in
    record m { task_times = drop (length times - 1000) times }
