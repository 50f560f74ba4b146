-- ===== src/Status/Store/Cleanup/Boundary.antt =====
-- `cleanup_expired` at the very moment of expiry.
use fish_async_task.Prelude.{ℕ, ◌≡◌, String, Bool, false, Option, List, ◌∷◌, ◌==◌, any}
use fish_async_task.Prelude.Dict
use fish_async_task.Prelude.Dict.{Dict}
use fish_async_task.Status.{TaskStatusDict}
use fish_async_task.Status.Store.{Runtime, Expiry}
use fish_async_task.Status.Store.Cleanup.{Sweep}

abbrev pub names_task : String → Expiry → Bool
names_task k e = e.task_id == k

module _ {R : Type 0} (py : Runtime) (now ttl : ℕ) where
  open py use {heapq.{IsHeap, heappop, heappop-nil, heappop-cons}}

  -- The heap is in order and no entry names the task.
  pub record Unnamed (j : String) (w : Sweep R) : Type 0 where
    pub heap : IsHeap w.heap
    pub absent : any (names_task j) w.heap ≡ false

  -- The sweep left the task alone, and its heap without an entry for it.
  pub record Ignored (j : String) (w w' : Sweep R) : Type 0 where
    pub same : Dict.lookup j w'.tasks ≡ Dict.lookup j w.tasks
    pub after : Unnamed j w'

module _ {R : Type 0} (py : Runtime) (now ttl : ℕ) (tasks : Dict (TaskStatusDict R)) (e : Expiry)
    (rest : List Expiry) (count : ℕ) (remaining : Option ℕ) where
  abbrev pub expiring : Sweep R
  expiring = record { tasks = tasks; heap = e ∷ rest; cleaned_count = count; remaining = remaining }
