-- ===== src/TaskManager/History.antt =====
-- The updates that the steps of the program make, and the order of the steps that concern a task.
use fish_async_task.Prelude.{
  ℕ, String, ◌==◌, Bool, true, false, not, ◌||◌, ◌&&◌, Option, none, some, List, [], ◌∷◌, ◌++◌,
}
use fish_async_task.Status.{running}
use fish_async_task.Status.Merge.{Update}
use fish_async_task.Status.Store.{Runtime}
use fish_async_task.Executor.Batching.{update_item}
use fish_async_task.Executor.Outcomes.{outcome_updates, seen_outcome}
use fish_async_task.TaskManager.{
  pending_item, Event, puts, notes, schedules, scales, takes, begins, finishes, reads,
}

-- The updates that a step makes, given the timeout of the tasks.
abbrev pub updates_of :
    {F R : Type 0} → Runtime → (String → Option ℕ → String) → Option ℕ → Event F R → List (Update R)
updates_of py message timeout (puts k f) = []
updates_of py message timeout (notes now k) = pending_item now k ∷ []
updates_of py message timeout (schedules now) = []
updates_of py message timeout (scales now cpu_usage) = []
updates_of py message timeout (takes i task_time) = []
updates_of py message timeout (begins now start_time k) =
    update_item k running (some start_time) none none none ∷ []
updates_of py message timeout (finishes now start_time k outcome in_time) =
    outcome_updates py message now start_time k (seen_outcome py message k timeout outcome in_time)
updates_of py message timeout (reads now k) = []

-- The updates of a sequence of steps.
abbrev pub all_updates :
    {F R : Type 0}
    → Runtime
    → (String → Option ℕ → String)
    → Option ℕ
    → List (Event F R)
    → List (Update R)
all_updates py message timeout [] = []
all_updates py message timeout (e ∷ es) =
    updates_of py message timeout e ++ all_updates py message timeout es

module _ {F R : Type 0} where
  -- Whether the step notes the task as pending.
  abbrev pub notes_task : String → Event F R → Bool
  notes_task k (puts j f) = false
  notes_task k (notes now j) = j == k
  notes_task k (schedules now) = false
  notes_task k (scales now cpu_usage) = false
  notes_task k (takes i task_time) = false
  notes_task k (begins now start_time j) = false
  notes_task k (finishes now start_time j outcome in_time) = false
  notes_task k (reads now j) = false

  -- Whether the step is one of the execution of the task.
  abbrev pub executes_task : String → Event F R → Bool
  executes_task k (puts j f) = false
  executes_task k (notes now j) = false
  executes_task k (schedules now) = false
  executes_task k (scales now cpu_usage) = false
  executes_task k (takes i task_time) = false
  executes_task k (begins now start_time j) = j == k
  executes_task k (finishes now start_time j outcome in_time) = j == k
  executes_task k (reads now j) = false

  -- The task is not noted as pending once its execution has begun, which `seen` tells.
  abbrev pub noted_first : (seen : Bool) → String → List (Event F R) → Bool
  noted_first seen k [] = true
  noted_first seen k (e ∷ es) =
      not (seen && notes_task k e) && noted_first (seen || executes_task k e) k es
