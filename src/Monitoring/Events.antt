-- ===== src/Monitoring/Events.antt =====
-- What is recorded, one call after the other, and what each call adds.
use fish_async_task.Prelude.{ℕ, ◌+◌, List, [], ◌∷◌, ◌++◌}
use fish_async_task.Monitoring.{
  PerformanceMetrics, record_task_submitted, record_task_completed, record_task_failed,
  record_task_cancelled, record_cleanup,
}

pub data Event : Type 0 where
  submitted cancelled : Event
  completed failed : (execution_time queue_wait_time : ℕ) → Event
  cleaned : (cleanup_time cleaned_count : ℕ) → Event

unfoldable pub note : Event → PerformanceMetrics → PerformanceMetrics
unfolding record_task_submitted record_task_completed record_task_failed record_task_cancelled
    record_cleanup
note submitted m = record_task_submitted m
note cancelled m = record_task_cancelled m
note (completed e q) m = record_task_completed e q m
note (failed e q) m = record_task_failed e q m
note (cleaned t n) m = record_cleanup t n m

unfoldable pub note_all : List Event → PerformanceMetrics → PerformanceMetrics
unfolding note
note_all [] m = m
note_all (e ∷ es) m = note_all es (note e m)

-- What an event adds to each number and to each list.
abbrev pub submissions : Event → ℕ
submissions submitted = 1
submissions cancelled = 0
submissions (completed e q) = 0
submissions (failed e q) = 0
submissions (cleaned t n) = 0

abbrev pub cancellations : Event → ℕ
cancellations submitted = 0
cancellations cancelled = 1
cancellations (completed e q) = 0
cancellations (failed e q) = 0
cancellations (cleaned t n) = 0

abbrev pub completions : Event → ℕ
completions submitted = 0
completions cancelled = 0
completions (completed e q) = 1
completions (failed e q) = 0
completions (cleaned t n) = 0

abbrev pub failures : Event → ℕ
failures submitted = 0
failures cancelled = 0
failures (completed e q) = 0
failures (failed e q) = 1
failures (cleaned t n) = 0

abbrev pub removals : Event → ℕ
removals submitted = 0
removals cancelled = 0
removals (completed e q) = 0
removals (failed e q) = 0
removals (cleaned t n) = n

abbrev pub execution : Event → List ℕ
execution submitted = []
execution cancelled = []
execution (completed e q) = e ∷ []
execution (failed e q) = e ∷ []
execution (cleaned t n) = []

abbrev pub waiting : Event → List ℕ
waiting submitted = []
waiting cancelled = []
waiting (completed e q) = q ∷ []
waiting (failed e q) = q ∷ []
waiting (cleaned t n) = []

abbrev pub cleaning : Event → List ℕ
cleaning submitted = []
cleaning cancelled = []
cleaning (completed e q) = []
cleaning (failed e q) = []
cleaning (cleaned t n) = t ∷ []

abbrev pub total : (Event → ℕ) → List Event → ℕ
total f [] = 0
total f (e ∷ es) = f e + total f es

abbrev pub all_of : (Event → List ℕ) → List Event → List ℕ
all_of f [] = []
all_of f (e ∷ es) = f e ++ all_of f es
