-- ===== src/Tests/Tokens.antt =====
-- A cancellation manager with one task, which runs in a thread that outlives the wait.
use fish_async_task.Prelude.{ℕ, ◌≡◌, refl, String, true, false, none, some, [], ◌∷◌, arith}
use fish_async_task.Prelude.Dict
use fish_async_task.Cancellation.{
  CancellableTask, TaskCancellationManager, cancel_task, check_cancelled_periodically, Joined,
  returned,
}
use fish_async_task.Cancellation.Cancelling.{Cancelled, cancel_task-Cancelled}
use fish_async_task.Cancellation.Waiting.{check_cancelled_periodically_returns}

abbrev running : CancellableTask ℕ String
running = record {
  task_id = "a";
  cancelled = false;
  started = true;
  completed = false;
  thread_alive = true;
  result = none;
  exception = none;
}

abbrev manager : TaskCancellationManager ℕ String
manager = record {
  objects = running ∷ [];
  cancellable_tasks = ("a", 0) ∷ [];
  cancel_tokens = ("a", 0) ∷ [];
}

-- The thread outlives the wait, and completes the task meanwhile.
abbrev joined : Joined ℕ String
joined = record { stops = false; ending = some (returned 7) }

cancel_task-Cancelled_example :
    Cancelled joined manager "a" 0 running (cancel_task joined manager "a")
unfolding Dict.lookup
cancel_task-Cancelled_example = cancel_task-Cancelled joined manager "a" 0 running refl refl refl

check_cancelled_periodically_returns_example :
    (fuel : ℕ) × (check_cancelled_periodically fuel (some (λ n. true)) 100 ≡ some true)
check_cancelled_periodically_returns_example =
    check_cancelled_periodically_returns 2 (λ n. true) 100 refl (omega arith)
