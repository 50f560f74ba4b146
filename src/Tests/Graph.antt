-- ===== src/Tests/Graph.antt =====
-- A manager of dependencies with a cycle, and a history of calls.
use fish_async_task.Prelude.{◌≡◌, ◌⊎◌, ◌↔◌, String, true, List, [], ◌∷◌}
use fish_async_task.Dependencies.{TaskDependencyManager, new, is_ready}
use fish_async_task.Dependencies.Readiness.{
  Call, adds, completes, fails, run, account, nothing, is_ready-run,
}
use fish_async_task.Dependencies.Cycles.{Marks, has_circular_dependency, cycle, no_cycle}
use fish_async_task.Dependencies.Cycles.Graph.{LeadsToCycle}
use fish_async_task.Dependencies.Cycles.Decides.{has_circular_dependency_decides}

abbrev looped : TaskDependencyManager
looped = record {
  dependencies = ("a", "b" ∷ []) ∷ ("b", "c" ∷ []) ∷ ("c", "b" ∷ []) ∷ [];
  dependents = ("b", "a" ∷ "c" ∷ []) ∷ ("c", "b" ∷ []) ∷ [];
  completed_tasks = [];
  failed_tasks = [];
}

has_circular_dependency_decides_example :
    ((has_circular_dependency looped "a" ≡ cycle) × LeadsToCycle looped.dependencies "a")
    ⊎ (((s : Marks) × (has_circular_dependency looped "a" ≡ no_cycle s))
        × (¬ LeadsToCycle looped.dependencies "a"))
has_circular_dependency_decides_example = has_circular_dependency_decides looped "a"

abbrev history : List Call
history =
    adds "c" ("a" ∷ "b" ∷ []) ∷ completes "a" ∷ adds "d" ("a" ∷ []) ∷ fails "b" ∷ completes "b" ∷ []

is_ready-run_example : (is_ready (run new history) "c" ≡ true) ↔ (
    (d : String)
    → (account nothing history).declared "c" d ≡ true
    → (account nothing history).complete d ≡ true)
is_ready-run_example = is_ready-run history "c"
