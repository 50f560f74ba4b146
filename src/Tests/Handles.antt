-- ===== src/Tests/Handles.antt =====
-- A manager of at most two resources.
use fish_async_task.Prelude.{ℕ, refl, [], ◌∷◌, arith}
use fish_async_task.Prelude.Dict
use fish_async_task.Resources.{
  TaskResource, TaskResourceManager, register_resource, cleanup_task_resources, unregister_resource,
  perform_cleanup,
}
use fish_async_task.Resources.Bounds.{Bounded, step-Bounded}
use fish_async_task.Resources.Cleanup.{Cleaned, cleanup_task_resources-Cleaned}

abbrev handle : ℕ → TaskResource ℕ
handle t = record { resource = t; created_at = t; last_used = t }

abbrev full : TaskResourceManager ℕ
full = record {
  max_tracked = 2;
  resources = ("r", handle 5) ∷ ("s", handle 3) ∷ [];
  task_resources = ("a", "r" ∷ []) ∷ ("b", "s" ∷ "r" ∷ []) ∷ [];
  cleanups = [];
}

step-Bounded_example :
    Bounded 2 (register_resource 7 "a" "t" 9 full)
    × Bounded 2 (cleanup_task_resources "a" full).1
    × Bounded 2 (unregister_resource "t" full).1
    × Bounded 2 (perform_cleanup 7 full).1
unfolding Dict.has
step-Bounded_example =
    step-Bounded 2 7 "a" "t" 9 full (omega arith)
      (record { same_limit = refl; unique = (refl, (refl, tt)); bounded = omega arith })

cleanup_task_resources-Cleaned_example : Cleaned "b" full (cleanup_task_resources "b" full)
unfolding Dict.has
cleanup_task_resources-Cleaned_example = cleanup_task_resources-Cleaned "b" full (refl, (refl, tt))
