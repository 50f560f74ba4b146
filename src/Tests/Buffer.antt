-- ===== src/Tests/Buffer.antt =====
-- A batched updater with a status waiting.
use fish_async_task.Prelude.{ℕ, ◌≡◌, refl, false, some, List, [], ◌∷◌, arith}
use fish_async_task.Prelude.Dict
use fish_async_task.Status.{TaskStatusDict, running, nothing_known}
use fish_async_task.Updater.{BatchedStatusUpdater}
use fish_async_task.Updater.View.{view, or_else}
use fish_async_task.Updater.Bounds.{IsValid}
use fish_async_task.Updater.Delivery.{QueueCall, queue_all, last_queued, Closed, close_delivers}

abbrev started : ℕ → TaskStatusDict ℕ
started t = record (nothing_known {R = ℕ}) { status = some running; start_time = some t }

abbrev updater : BatchedStatusUpdater ℕ
updater = record {
  buffer_size = 3;
  flush_interval = 10;
  underlying_store = ("b", started 1) ∷ [];
  buffer = ("a", started 2) ∷ [];
  last_flush_time = 5;
  closed = false;
}

updater-IsValid : IsValid updater
unfolding Dict.has
updater-IsValid = record { unique = (refl, tt); room = omega arith }

abbrev calls : List (QueueCall ℕ)
calls =
    record { at = 6; task_id = "a"; status = started 3 }
    ∷ record { at = 16; task_id = "c"; status = started 4 }
    ∷ record { at = 17; task_id = "a"; status = started 5 }
    ∷ []

close_delivers_example :
    (u' : BatchedStatusUpdater ℕ) × (queue_all calls updater ≡ some u')
    × Closed u' (λ j. or_else (last_queued j calls) (view updater j))
close_delivers_example = close_delivers calls updater updater-IsValid refl
