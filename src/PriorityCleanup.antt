-- ===== src/PriorityCleanup.antt =====
-- `TaskStatusWithExpiry` of fish_async_task/performance/priority_cleanup.py. Every method runs
-- under `heap_lock`, as one step; `now` is what `time.time()` returns. Times are counted in ticks
-- of the clock from the epoch.
pub mod Expiring
pub mod Invariant
pub mod Limit
use fish_async_task.Prelude.{
  ℕ, zero, suc, ◌+◌, ◌-◌, String, Bool, true, false, not, ◌&&◌, Option, none, some, List, [], ◌∷◌,
  map, ltb, leb, if◌then◌else◌, length, take, select,
}
use fish_async_task.Prelude.Dict
use fish_async_task.Prelude.Dict.{Dict}
use fish_async_task.Prelude.StringSet
use fish_async_task.Prelude.Heapq.{sort}
use fish_async_task.Status.{TaskStatusDict, truthy}
use fish_async_task.Status.Store.{Runtime, Expiry}

pub record TaskStatusWithExpiry (R : Type 0) : Type 0 where
  pub ttl : ℕ
  pub status_dict : Dict (TaskStatusDict R)
  pub expiry_heap : List Expiry

-- `compute_expiry_time` of fish_async_task/performance/_utils.py.
abbrev pub compute_expiry_time : (end_time ttl : ℕ) → ℕ
compute_expiry_time end_time ttl = end_time + ttl

-- `__init__`, where `none` is the `ValueError`.
unfoldable pub new : {R : Type 0} → (ttl : ℕ) → Option (TaskStatusWithExpiry R)
new ttl =
    if ltb ttl 1 then none else some (record { ttl = ttl; status_dict = []; expiry_heap = [] })

-- `end_time is not None and current_time - end_time > self.ttl`. Where the end lies ahead, the
-- difference is negative in Python and 0 here, and not above the ttl either way.
abbrev pub is_expired : {R : Type 0} → (now ttl : ℕ) → TaskStatusDict R → Bool
is_expired now ttl st = elim st.end_time [ none ↦ false | some t ↦ ltb ttl (now - t) ]

abbrev pub expired? : {R : Type 0} → (now ttl : ℕ) → Option (TaskStatusDict R) → Bool
expired? now ttl none = false
expired? now ttl (some st) = is_expired now ttl st

-- `max_cleanup is not None and cleaned_count >= max_cleanup`
abbrev pub is_enough : Option ℕ → ℕ → Bool
is_enough none cleaned_count = false
is_enough (some m) cleaned_count = leb m cleaned_count

-- `a or b`, for times.
abbrev pub or_time : Option ℕ → ℕ → ℕ
or_time a b = elim (truthy a) [ none ↦ b | some t ↦ t ]

-- A pair `(timestamp, task_id)`.
pub record Stamped : Type 0 where
  pub timestamp : ℕ
  pub task_id : String

-- The order of `sort(key=lambda x: x[0])`.
abbrev pub is_older : Stamped → Stamped → Bool
is_older a b = ltb a.timestamp b.timestamp

abbrev pub ids_of : List Stamped → List String
ids_of ts = map (λ a. a.task_id) ts

module _ {R : Type 0} where
  unfoldable pub get_task : TaskStatusWithExpiry R → String → Option (TaskStatusDict R)
  get_task s k = Dict.lookup k s.status_dict

  unfoldable pub get_task_count : TaskStatusWithExpiry R → ℕ
  get_task_count s = length s.status_dict

  unfoldable pub get_all_statuses : TaskStatusWithExpiry R → Dict (TaskStatusDict R)
  get_all_statuses s = s.status_dict

  -- What the loop does with the task of an entry that it took off the heap.
  unfoldable pub drop_task :
      (now : ℕ) → String → ℕ × TaskStatusWithExpiry R → ℕ × TaskStatusWithExpiry R
  drop_task now k (cleaned_count, s) =
      if expired? now s.ttl (Dict.lookup k s.status_dict)
      then (cleaned_count + 1, record s { status_dict = Dict.delete k s.status_dict })
      else (cleaned_count, s)

  -- The loop that collects the tasks with their times.
  unfoldable pub tasks_with_time : Dict (TaskStatusDict R) → List Stamped
  tasks_with_time [] = []
  tasks_with_time ((k, st) ∷ d) =
      record {
        timestamp = or_time st.submit_time (or_time st.start_time (or_time st.end_time 0));
        task_id = k;
      }
      ∷ tasks_with_time d

  -- The loop that removes them.
  unfoldable pub remove_each :
      List String → ℕ × Dict (TaskStatusDict R) → ℕ × Dict (TaskStatusDict R)
  remove_each [] (removed_count, d) = (removed_count, d)
  remove_each (k ∷ ks) (removed_count, d) =
      remove_each ks
        (if Dict.has k d then (removed_count + 1, Dict.delete k d) else (removed_count, d))

  -- The ids of the `to_remove` oldest tasks.
  unfoldable pub to_remove_ids : (max_count : ℕ) → Dict (TaskStatusDict R) → List String
  unfolding tasks_with_time
  to_remove_ids max_count d =
      ids_of (take (length d - max_count) (sort is_older (tasks_with_time d)))

module _ {R : Type 0} (py : Runtime) where
  open py use {heapq.{heappush, heappop, heapify}}

  unfoldable pub add_task :
      String → TaskStatusDict R → TaskStatusWithExpiry R → TaskStatusWithExpiry R
  add_task k st s = record s {
    status_dict = Dict.insert k st s.status_dict;
    expiry_heap = elim st.end_time [
      | none ↦ s.expiry_heap
      | some t ↦ heappush (record { time = compute_expiry_time t s.ttl; task_id = k }) s.expiry_heap
    ];
  }

  then_drop :
      (now : ℕ) (again : ℕ × TaskStatusWithExpiry R → ℕ × TaskStatusWithExpiry R)
      → ℕ × TaskStatusWithExpiry R
      → Option (Expiry × List Expiry)
      → ℕ × TaskStatusWithExpiry R
  unfolding drop_task
  then_drop now again (n, s) none = (n, s)
  then_drop now again (n, s) (some (e, rest)) =
      again (drop_task now e.task_id (n, record s { expiry_heap = rest }))

  due :
      (now : ℕ) (again : ℕ × TaskStatusWithExpiry R → ℕ × TaskStatusWithExpiry R)
      → ℕ × TaskStatusWithExpiry R
      → List Expiry
      → ℕ × TaskStatusWithExpiry R
  unfolding then_drop
  due now again w [] = w
  due now again w (e ∷ rest) =
      if ltb now e.time then w else then_drop now again w (heappop (e ∷ rest))

  -- The `while` loop. Each round takes an entry off the heap, so that its length is fuel enough.
  unfoldable pub sweep :
      (now : ℕ) (max_cleanup : Option ℕ) (fuel : ℕ)
      → ℕ × TaskStatusWithExpiry R
      → ℕ × TaskStatusWithExpiry R
  unfolding due
  sweep now max_cleanup zero w = w
  sweep now max_cleanup (suc fuel) (n, s) =
      if is_enough max_cleanup n
      then (n, s)
      else due now (sweep now max_cleanup fuel) (n, s) s.expiry_heap

  unfoldable pub cleanup_expired :
      (now : ℕ) (max_cleanup : Option ℕ) → TaskStatusWithExpiry R → ℕ × TaskStatusWithExpiry R
  unfolding sweep
  cleanup_expired now max_cleanup s = sweep now max_cleanup (length s.expiry_heap) (0, s)

  unfoldable pub enforce_max_count :
      (max_count : ℕ) → TaskStatusWithExpiry R → ℕ × TaskStatusWithExpiry R
  unfolding remove_each to_remove_ids
  enforce_max_count max_count s =
      let ids = to_remove_ids max_count s.status_dict in
      let (removed_count, d) = remove_each ids (0, s.status_dict) in
      if leb (length s.status_dict) max_count then (0, s) else (
        removed_count,
        record s {
          status_dict = d;
          expiry_heap =
              heapify (select (λ e. not (StringSet.contains e.task_id ids)) s.expiry_heap);
        },
      )
