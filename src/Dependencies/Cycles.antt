-- ===== src/Dependencies/Cycles.antt =====
-- `TaskDependencyManager.has_circular_dependency`: a depth-first search with a set of visited tasks
-- and the set of those on the recursion's stack. The recursion has fuel, one more than there are
-- names in the dict. (Python's own limit on the depth of a recursion is not modelled.)
pub mod Graph
pub mod Sound
pub mod Topological
pub mod Complete
pub mod Fuel
pub mod Decides
use fish_async_task.Prelude.{
  ℕ, zero, suc, ◌+◌, String, Bool, true, false, List, [], ◌∷◌, ◌++◌, length, if◌then◌else◌,
}
use fish_async_task.Prelude.Dict.{Dict}
use fish_async_task.Prelude.StringSet
use fish_async_task.Dependencies.{TaskDependencyManager, entry}

pub record Marks : Type 0 where
  pub visited : List String
  pub rec_stack : List String

-- `cycle` is the answer True, `no_cycle` False with the two sets as they then are; `exhausted` is
-- the model's own.
pub data Search : Type 0 where
  cycle : Search
  no_cycle : Marks → Search
  exhausted : Search

-- `visited.add(tid); rec_stack.add(tid)`
abbrev pub enter : String → Marks → Marks
enter tid s = record {
  visited = StringSet.add tid s.visited;
  rec_stack = StringSet.add tid s.rec_stack;
}

-- `rec_stack.remove(tid)`
abbrev pub leave : String → Search → Search
leave tid cycle = cycle
leave tid (no_cycle s) = no_cycle (record s { rec_stack = StringSet.discard tid s.rec_stack })
leave tid exhausted = exhausted

abbrev pub and_then : Search → (Marks → Search) → Search
and_then cycle f = cycle
and_then (no_cycle s) f = f s
and_then exhausted f = exhausted

-- The loop over the dependencies of one task; `search` is the call `_has_cycle`.
unfoldable pub search_deps : (String → Marks → Search) → List String → Marks → Search
search_deps search [] s = no_cycle s
search_deps search (dep ∷ deps) s =
    if StringSet.contains dep s.visited
    then (if StringSet.contains dep s.rec_stack then cycle else search_deps search deps s)
    else and_then (search dep s) (search_deps search deps)

-- `_has_cycle`
unfoldable pub has_cycle : Dict (List String) → ℕ → String → Marks → Search
unfolding search_deps
has_cycle d zero tid s = exhausted
has_cycle d (suc fuel) tid s =
    leave tid (search_deps (has_cycle d fuel) (entry tid d) (enter tid s))

-- All names that stand in the dict.
unfoldable pub names : Dict (List String) → List String
names [] = []
names ((k, xs) ∷ d) = k ∷ xs ++ names d

unfoldable pub has_circular_dependency : TaskDependencyManager → String → Search
unfolding has_cycle names
has_circular_dependency m tid =
    has_cycle m.dependencies (suc (length (names m.dependencies))) tid
      (record { visited = []; rec_stack = [] })
