-- ===== src/Dependencies.antt =====
-- `TaskDependencyManager` of fish_async_task/performance/priority_queue.py. Each method holds the
-- manager's lock from beginning to end, but `has_circular_dependency`, which takes none: each is
-- one step. The order in which Python walks a set is that of the list that stands for it: no
-- theorem depends on it.
pub mod Readiness
pub mod Cycles
use fish_async_task.Prelude.{
  ℕ, String, ◌≡◌, refl, Bool, true, false, not, ◌&&◌, ◌||◌, ◌==◌, Option, none, some, List, [], ◌∷◌,
  arith, length, if◌then◌else◌, eq_iff,
}
use fish_async_task.Prelude.Dict
use fish_async_task.Prelude.Dict.{Dict, lookup-insert}
use fish_async_task.Prelude.StringSet

pub record TaskDependencyManager : Type 0 where
  pub dependencies : Dict (List String)
  pub dependents : Dict (List String)
  pub completed_tasks : List String
  pub failed_tasks : List String

-- `TaskDependencyManager.__init__`
unfoldable pub new : TaskDependencyManager
new = record { dependencies = []; dependents = []; completed_tasks = []; failed_tasks = [] }

abbrev pub or_nothing : Option (List String) → List String
or_nothing none = []
or_nothing (some s) = s

-- The set at a key, where a missing key stands for the empty set.
unfoldable pub entry : String → Dict (List String) → List String
entry k d = or_nothing (Dict.lookup k d)

-- `if k not in d: d[k] = set()`
unfoldable pub set_default : String → Dict (List String) → Dict (List String)
set_default k d = if Dict.has k d then d else Dict.insert k [] d

-- `d[k].add(x)`
unfoldable pub add_at : String → String → Dict (List String) → Dict (List String)
add_at k x d = Dict.insert k (StringSet.add x (entry k d)) d

-- `if k in d: d[k].discard(x)`
unfoldable pub discard_at : String → String → Dict (List String) → Dict (List String)
discard_at k x d = if Dict.has k d then Dict.insert k (StringSet.discard x (entry k d)) d else d

-- The loop over `depends_on`, on both dicts.
unfoldable pub add_deps :
    String
    → List String
    → Dict (List String) × Dict (List String)
    → Dict (List String) × Dict (List String)
add_deps k [] d = d
add_deps k (x ∷ xs) (deps, dependents) =
    add_deps k xs (add_at k x deps, add_at x k (set_default x dependents))

unfoldable pub add_dependency : TaskDependencyManager → String → List String → TaskDependencyManager
add_dependency m k xs =
    let (deps, dependents) = add_deps k xs (set_default k m.dependencies, m.dependents) in
    record m { dependencies = deps; dependents = dependents }

-- The loop over the tasks that depend on the completed one.
unfoldable pub discard_from : String → List String → Dict (List String) → Dict (List String)
discard_from k [] d = d
discard_from k (t ∷ ts) d = discard_from k ts (discard_at t k d)

unfoldable pub mark_completed : TaskDependencyManager → String → TaskDependencyManager
mark_completed m k = record m {
  dependencies =
      if Dict.has k m.dependents
      then discard_from k (entry k m.dependents) m.dependencies
      else m.dependencies;
  completed_tasks = StringSet.add k m.completed_tasks;
}

unfoldable pub mark_failed : TaskDependencyManager → String → TaskDependencyManager
mark_failed m k = record m { failed_tasks = StringSet.add k m.failed_tasks }

unfoldable pub is_ready : TaskDependencyManager → String → Bool
is_ready m k =
    if Dict.has k m.dependencies
    then StringSet.issubset (entry k m.dependencies) m.completed_tasks
    else true

unfoldable pub clear : TaskDependencyManager → TaskDependencyManager
clear m = record { dependencies = []; dependents = []; completed_tasks = []; failed_tasks = [] }

pub entry-insert :
    (k j : String) (s : List String) (d : Dict (List String))
    → entry j (Dict.insert k s d) ≡ (if k == j then s else entry j d)
unfolding entry
entry-insert k j s d = rw lookup-insert (ground arith)

pub entry_missing : (k : String) (d : Dict (List String)) → Dict.has k d ≡ false → entry k d ≡ []
unfolding entry
entry_missing k d h = ground (arith, Dict.has-eq_lookup k d)
