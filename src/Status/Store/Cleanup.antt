-- ===== src/Status/Store/Cleanup.antt =====
-- `cleanup_expired` of `ShardedTaskStatusWithExpiry`: the loops, and what they may remove.
pub mod Safety
pub mod Counting
pub mod Boundary
use fish_async_task.Prelude.{
  ℕ, zero, suc, ◌+◌, ◌-◌, ◌≤◌, ◌<◌, ◌≡◌, refl, ◌∙◌, sym, ap, String, Bool, true, false, not, ◌&&◌,
  ◌||◌, ◌==◌, Option, none, some, List, [], ◌∷◌, arith, if◌then◌else◌, length, ltb, leb, eq_iff,
  inl, inr, ◌⊎◌, Bool-cases,
}
use fish_async_task.Prelude.Dict
use fish_async_task.Prelude.Dict.{Dict, lookup-delete, length-delete}
use fish_async_task.Status.{TaskStatusDict, truthy}
use fish_async_task.Status.Store.{Store, Runtime, Expiry, shard, sizes, get_status, get_total_count}

-- `remaining_cleanup is not None and remaining_cleanup <= 0`
abbrev pub spent : Option ℕ → Bool
spent none = false
spent (some n) = leb n 0

abbrev pub spend : Option ℕ → Option ℕ
spend none = none
spend (some n) = some (n - 1)

-- The part of the store and the counters that the loops work on.
pub record Sweep (R : Type 0) : Type 0 where
  pub tasks : Dict (TaskStatusDict R)
  pub heap : List Expiry
  pub cleaned_count : ℕ
  pub remaining : Option ℕ

-- `end_time and (now - end_time) > self.ttl`. Where the end lies ahead, the difference is negative
-- in Python and 0 here, and not above the ttl either way.
abbrev pub is_overdue : {R : Type 0} → ℕ → ℕ → TaskStatusDict R → Bool
is_overdue now ttl st = elim (truthy st.end_time) [ none ↦ false | some t ↦ ltb ttl (now - t) ]

abbrev pub overdue? : {R : Type 0} → ℕ → ℕ → Option (TaskStatusDict R) → Bool
overdue? now ttl none = false
overdue? now ttl (some st) = is_overdue now ttl st

-- The body of the `while` loop behind the `heappop`.
unfoldable pub drop_task : {R : Type 0} → ℕ → ℕ → String → Sweep R → Sweep R
drop_task now ttl k w =
    if overdue? now ttl (Dict.lookup k w.tasks)
    then record {
      tasks = Dict.delete k w.tasks;
      heap = w.heap;
      cleaned_count = w.cleaned_count + 1;
      remaining = spend w.remaining;
    }
    else w

module _ {R : Type 0} (py : Runtime) (now ttl : ℕ) where
  open py use {heapq.{heappop}}

  then_drop : (Sweep R → Sweep R) → Sweep R → Option (Expiry × List Expiry) → Sweep R
  then_drop again w none = w
  then_drop again w (some (e, rest)) =
      again (drop_task now ttl e.task_id (record w { heap = rest }))

  due : (Sweep R → Sweep R) → Sweep R → List Expiry → Sweep R
  unfolding then_drop
  due again w [] = w
  due again w (e ∷ rest) = if ltb now e.time then w else then_drop again w (heappop (e ∷ rest))

  -- The `while` loop of one shard. Each round takes an entry off the heap, so that its length is
  -- fuel enough.
  unfoldable pub sweep : ℕ → Sweep R → Sweep R
  unfolding due
  sweep zero w = w
  sweep (suc fuel) w = if spent w.remaining then w else due (sweep fuel) w w.heap

  unfoldable pub sweep_shard : Sweep R → Sweep R
  unfolding sweep
  sweep_shard w = sweep (length w.heap) w

-- What the loop over the shards hands back.
pub record Swept (R : Type 0) : Type 0 where
  pub shards : List (Dict (TaskStatusDict R))
  pub heaps : List (List Expiry)
  pub count : ℕ

module _ {R : Type 0} (py : Runtime) (now ttl : ℕ) where
  -- The loop over the shards, with the counters so far. There are as many heaps as shards: the
  -- second clause is never met.
  unfoldable pub sweep_all :
      ℕ → Option ℕ → List (Dict (TaskStatusDict R)) → List (List Expiry) → Swept R
  unfolding sweep_shard
  sweep_all count remaining [] heaps = record { shards = []; heaps = heaps; count = count }
  sweep_all count remaining (d ∷ ds) [] = record { shards = d ∷ ds; heaps = []; count = count }
  sweep_all count remaining (d ∷ ds) (h ∷ hs) =
      let w =
        sweep_shard py now ttl
          (record { tasks = d; heap = h; cleaned_count = count; remaining = remaining }) in
      let rest = sweep_all w.cleaned_count w.remaining ds hs in
      if spent remaining
      then record { shards = d ∷ ds; heaps = h ∷ hs; count = count }
      else record {
        shards = w.tasks ∷ rest.shards;
        heaps = w.heap ∷ rest.heaps;
        count = rest.count;
      }

unfoldable pub cleanup_expired :
    {R : Type 0} → Runtime → (now : ℕ) → Store R → (max_cleanup : Option ℕ) → ℕ × Store R
unfolding sweep_all
cleanup_expired py now s max_cleanup =
    let swept = sweep_all py now s.ttl 0 max_cleanup s.shards s.expiry_heaps in
    (swept.count, record s { shards = swept.shards; expiry_heaps = swept.heaps })
