-- ===== src/Monitoring.antt =====
-- `PerformanceMetrics` of fish_async_task/performance/monitoring.py. Every method runs under
-- `_lock`, as one step. Times are counted in ticks of the clock; `now` is what `time.time()`
-- returns.
pub mod Events
pub mod History
pub mod Percentiles
pub mod Health
use fish_async_task.Prelude.{
  ℕ, zero, suc, ◌+◌, ◌-◌, ◌*◌, ◌/◌, Bool, true, false, Option, none, some, List, [], ◌∷◌, ◌++◌, map,
  ltb, leb, eqb, if◌then◌else◌, length, drop, get_elem?,
}
use fish_async_task.Prelude.Int.{ℤ, pos, negsuc}
use fish_async_task.Prelude.Heapq.{sort}

-- `sum`
abbrev pub sum : List ℕ → ℕ
sum [] = 0
sum (t ∷ ts) = t + sum ts

-- The last `n` items.
abbrev pub last : {A : Type 0} → (n : ℕ) → List A → List A
last n ts = drop (length ts - n) ts

-- `append` of a `deque(maxlen=n)`
abbrev pub append : {A : Type 0} → (n : ℕ) → List A → A → List A
append n ts t = last n (ts ++ (t ∷ []))

-- A quotient that is not computed.
pub record Ratio : Type 0 where
  pub numerator : ℕ
  pub denominator : ℕ

-- `a / b if b > 0 else 0.0`
abbrev pub over : ℕ → ℕ → Ratio
over a b =
    if ltb 0 b
    then record { numerator = a; denominator = b }
    else record { numerator = 0; denominator = 1 }

-- `a - b`, which may be negative.
abbrev pub minus : ℕ → ℕ → ℤ
minus a b = if leb b a then pos (a - b) else negsuc (b - suc a)

pub record PerformanceMetrics : Type 0 where
  pub max_history : ℕ
  pub tasks_submitted : ℕ
  pub tasks_completed : ℕ
  pub tasks_failed : ℕ
  pub tasks_cancelled : ℕ
  pub total_execution_time : ℕ
  pub total_queue_wait_time : ℕ
  pub total_cleanup_time : ℕ
  pub cleanup_count : ℕ
  pub execution_times : List ℕ
  pub queue_wait_times : List ℕ
  pub cleanup_times : List ℕ
  pub start_time : ℕ

-- `__init__`
unfoldable pub new : (max_history now : ℕ) → PerformanceMetrics
new max_history now = record {
  max_history = max_history;
  tasks_submitted = 0;
  tasks_completed = 0;
  tasks_failed = 0;
  tasks_cancelled = 0;
  total_execution_time = 0;
  total_queue_wait_time = 0;
  total_cleanup_time = 0;
  cleanup_count = 0;
  execution_times = [];
  queue_wait_times = [];
  cleanup_times = [];
  start_time = now;
}

unfoldable pub record_task_submitted : PerformanceMetrics → PerformanceMetrics
record_task_submitted m = record m { tasks_submitted = m.tasks_submitted + 1 }

unfoldable pub record_task_completed :
    (execution_time queue_wait_time : ℕ) → PerformanceMetrics → PerformanceMetrics
record_task_completed execution_time queue_wait_time m = record m {
  tasks_completed = m.tasks_completed + 1;
  total_execution_time = m.total_execution_time + execution_time;
  total_queue_wait_time = m.total_queue_wait_time + queue_wait_time;
  execution_times = append m.max_history m.execution_times execution_time;
  queue_wait_times = append m.max_history m.queue_wait_times queue_wait_time;
}

unfoldable pub record_task_failed :
    (execution_time queue_wait_time : ℕ) → PerformanceMetrics → PerformanceMetrics
record_task_failed execution_time queue_wait_time m = record m {
  tasks_failed = m.tasks_failed + 1;
  total_execution_time = m.total_execution_time + execution_time;
  total_queue_wait_time = m.total_queue_wait_time + queue_wait_time;
  execution_times = append m.max_history m.execution_times execution_time;
  queue_wait_times = append m.max_history m.queue_wait_times queue_wait_time;
}

unfoldable pub record_task_cancelled : PerformanceMetrics → PerformanceMetrics
record_task_cancelled m = record m { tasks_cancelled = m.tasks_cancelled + 1 }

unfoldable pub record_cleanup :
    (cleanup_time cleaned_count : ℕ) → PerformanceMetrics → PerformanceMetrics
record_cleanup cleanup_time cleaned_count m = record m {
  cleanup_count = m.cleanup_count + cleaned_count;
  total_cleanup_time = m.total_cleanup_time + cleanup_time;
  cleanup_times = append m.max_history m.cleanup_times cleanup_time;
}

unfoldable pub reset : (now : ℕ) → PerformanceMetrics → PerformanceMetrics
reset now m = record {
  max_history = m.max_history;
  tasks_submitted = 0;
  tasks_completed = 0;
  tasks_failed = 0;
  tasks_cancelled = 0;
  total_execution_time = 0;
  total_queue_wait_time = 0;
  total_cleanup_time = 0;
  cleanup_count = 0;
  execution_times = [];
  queue_wait_times = [];
  cleanup_times = [];
  start_time = now;
}

-- The dict that `get_metrics` returns.
pub record Metrics : Type 0 where
  pub uptime_seconds : ℕ
  pub tasks_submitted : ℕ
  pub tasks_completed : ℕ
  pub tasks_failed : ℕ
  pub tasks_cancelled : ℕ
  pub tasks_in_progress : ℤ
  pub success_rate : Ratio
  pub failure_rate : Ratio
  pub avg_execution_time_seconds : Ratio
  pub avg_queue_wait_time_seconds : Ratio
  pub recent_avg_execution_time_seconds : Ratio
  pub recent_avg_queue_wait_time_seconds : Ratio
  pub total_execution_time_seconds : ℕ
  pub total_queue_wait_time_seconds : ℕ
  pub cleanup_count : ℕ
  pub total_cleanup_time_seconds : ℕ
  pub avg_cleanup_time_seconds : Ratio
  pub tasks_per_second : Ratio

-- A clock that goes back is not modelled: `now` is at least the start.
unfoldable pub get_metrics : (now : ℕ) → PerformanceMetrics → Metrics
get_metrics now m = record {
  uptime_seconds = now - m.start_time;
  tasks_submitted = m.tasks_submitted;
  tasks_completed = m.tasks_completed;
  tasks_failed = m.tasks_failed;
  tasks_cancelled = m.tasks_cancelled;
  tasks_in_progress =
      minus m.tasks_submitted (m.tasks_completed + m.tasks_failed + m.tasks_cancelled);
  success_rate = over m.tasks_completed m.tasks_submitted;
  failure_rate = over m.tasks_failed m.tasks_submitted;
  avg_execution_time_seconds = over m.total_execution_time m.tasks_completed;
  avg_queue_wait_time_seconds = over m.total_queue_wait_time m.tasks_completed;
  recent_avg_execution_time_seconds = over (sum m.execution_times) (length m.execution_times);
  recent_avg_queue_wait_time_seconds = over (sum m.queue_wait_times) (length m.queue_wait_times);
  total_execution_time_seconds = m.total_execution_time;
  total_queue_wait_time_seconds = m.total_queue_wait_time;
  cleanup_count = m.cleanup_count;
  total_cleanup_time_seconds = m.total_cleanup_time;
  avg_cleanup_time_seconds = over m.total_cleanup_time m.cleanup_count;
  tasks_per_second = over m.tasks_submitted (now - m.start_time);
}

-- `min(int(n * p / 100), n - 1)` for `n` times.
abbrev pub rank : (n p : ℕ) → ℕ
rank n p = let idx = n * p / 100 in if leb n idx then n - 1 else idx

-- `sorted_times[idx]`; `none` would be the `IndexError`.
abbrev pub percentile : List ℕ → (p : ℕ) → Option ℕ
percentile [] p = some 0
percentile (t ∷ ts) p = get_elem? (sort ltb (t ∷ ts)) (rank (length (t ∷ ts)) p)

-- The value for each percentile asked for, which is not negative; the default list is not modelled.
-- A percentile that is asked for twice is one key of the dict in Python, and an item twice here.
unfoldable pub get_percentiles : (percentiles : List ℕ) → PerformanceMetrics → List (Option ℕ)
get_percentiles percentiles m = map (percentile m.execution_times) percentiles
