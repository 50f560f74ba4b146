-- ===== src/Dependencies/Cycles/Graph.antt =====
-- The graph of the dependencies: an edge from a task to each task of its set.
use fish_async_task.Prelude.{String, ◌≡◌, true, List}
use fish_async_task.Prelude.Dict.{Dict}
use fish_async_task.Prelude.StringSet
use fish_async_task.Dependencies.{entry}

abbrev pub Edge : Dict (List String) → String → String → Type 0
Edge d a b = StringSet.contains b (entry a d) ≡ true

-- A path of any length.
pub data Reaches (d : Dict (List String)) (a : String) : String → Type 0 where
  here : Reaches d a a
  next : {b c : String} → Reaches d a b → Edge d b c → Reaches d a c

-- A path of at least one edge.
pub record Follows (d : Dict (List String)) (a c : String) : Type 0 where
  pub before_last : String
  pub start : Reaches d a before_last
  pub last : Edge d before_last c

pub Reaches-trans :
    {d : Dict (List String)} {a b c : String} → Reaches d a b → Reaches d b c → Reaches d a c
Reaches-trans r here = r
Reaches-trans r (next s e) = next (Reaches-trans r s) e

-- Some task that `a` leads to depends, directly or through others, on itself.
pub record LeadsToCycle (d : Dict (List String)) (a : String) : Type 0 where
  pub turn : String
  pub way : Reaches d a turn
  pub round : Follows d turn turn
