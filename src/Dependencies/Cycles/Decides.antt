-- ===== src/Dependencies/Cycles/Decides.antt =====
-- The answer of `has_circular_dependency`, both ways.
use fish_async_task.Prelude.{◌≡◌, ◌⊎◌, inl, inr, refl, String}
use fish_async_task.Dependencies.{TaskDependencyManager}
use fish_async_task.Dependencies.Cycles.{
  Marks, Search, cycle, no_cycle, exhausted, has_circular_dependency,
}
use fish_async_task.Dependencies.Cycles.Graph.{LeadsToCycle}
use fish_async_task.Dependencies.Cycles.Sound.{has_circular_dependency_sound}
use fish_async_task.Dependencies.Cycles.Complete.{has_circular_dependency_complete}
use fish_async_task.Dependencies.Cycles.Fuel.{has_circular_dependency-ends}

-- `has_circular_dependency` always answers: True exactly if the task leads to a task that depends,
-- directly or through others, on itself, and False exactly if it does not.
pub has_circular_dependency_decides :
    (m : TaskDependencyManager) (tid : String)
    → ((has_circular_dependency m tid ≡ cycle) × LeadsToCycle m.dependencies tid)
      ⊎ (((s : Marks) × (has_circular_dependency m tid ≡ no_cycle s))
          × (¬ LeadsToCycle m.dependencies tid))
has_circular_dependency_decides m tid = go (has_circular_dependency m tid) refl
  where
    go :
        (r : Search)
        → has_circular_dependency m tid ≡ r
        → ((has_circular_dependency m tid ≡ cycle) × LeadsToCycle m.dependencies tid)
          ⊎ (((s : Marks) × (has_circular_dependency m tid ≡ no_cycle s))
              × (¬ LeadsToCycle m.dependencies tid))
    go cycle e = inl (e, has_circular_dependency_sound m tid e)
    go (no_cycle s) e = inr ((s, e), has_circular_dependency_complete m tid s e)
    go exhausted e = absurd (has_circular_dependency-ends m tid e)
