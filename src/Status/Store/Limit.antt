-- ===== src/Status/Store/Limit.antt =====
-- `enforce_max_count` of `ShardedTaskStatusWithExpiry`, which is run without interruption though
-- its incremental form takes the locks of the shards one after the other, and
-- `cleanup_old_task_status` of `TaskStatusManager`, which calls it. A list sorted by Python is
-- sorted stably.
pub mod Counts
pub mod Full
pub mod Incremental
pub mod Removed
use fish_async_task.Prelude.{
  ℕ, zero, suc, ◌+◌, ◌-◌, ◌*◌, String, Bool, true, false, not, Option, none, some, List, [], ◌∷◌,
  ◌++◌, map, ltb, leb, if◌then◌else◌, length, get_elem?, set, take, drop, select,
}
use fish_async_task.Prelude.Dict
use fish_async_task.Prelude.Dict.{Dict}
use fish_async_task.Prelude.StringSet
use fish_async_task.Prelude.Heapq.{sort}
use fish_async_task.Status.{TaskStatusDict}
use fish_async_task.Status.Store.{Store, Runtime, Expiry, or_empty, get_total_count}
use fish_async_task.Status.Store.Cleanup.{cleanup_expired}

-- The tuples that are sorted, without the status: no time is below every time.
pub record Aged : Type 0 where
  pub sort_key : Option ℕ
  pub task_id : String
  pub shard_idx : ℕ

-- `submit_time`, or else `start_time`, or else minus infinity.
abbrev pub key_of : (submit_time start_time : Option ℕ) → Option ℕ
key_of (some t) start_time = some t
key_of none start_time = start_time

abbrev pub key_lt : Option ℕ → Option ℕ → Bool
key_lt none none = false
key_lt none (some b) = true
key_lt (some a) none = false
key_lt (some a) (some b) = ltb a b

-- The order of `sort(key=lambda x: x[0], reverse=True)`.
abbrev pub is_newer : Aged → Aged → Bool
is_newer a b = key_lt b.sort_key a.sort_key

abbrev pub ids_of : List Aged → List String
ids_of ts = map (λ a. a.task_id) ts

module _ {R : Type 0} where
  -- The loop over the items of one shard.
  unfoldable pub entries : ℕ → Dict (TaskStatusDict R) → List Aged
  entries i [] = []
  entries i ((k, st) ∷ d) =
      record { sort_key = key_of st.submit_time st.start_time; task_id = k; shard_idx = i }
      ∷ entries i d

  -- The loops over the items of all shards, of which the first has the number `i`.
  unfoldable pub all_entries : ℕ → List (Dict (TaskStatusDict R)) → List Aged
  unfolding entries
  all_entries i [] = []
  all_entries i (d ∷ ds) = entries i d ++ all_entries (suc i) ds

  -- `_collect_all_tasks`
  unfoldable pub collect_all_tasks : Store R → List Aged
  unfolding all_entries
  collect_all_tasks s = sort is_newer (all_entries 0 s.shards)

  -- `_collect_shard_tasks`
  unfoldable pub collect_shard_tasks : ℕ → Dict (TaskStatusDict R) → List Aged
  unfolding entries
  collect_shard_tasks i d = sort is_newer (entries i d)

  -- `self.shards[shard_idx].pop(task_id, None)`
  abbrev pub pop_at : ℕ → String → List (Dict (TaskStatusDict R)) → List (Dict (TaskStatusDict R))
  pop_at i k ds = set ds i (Dict.delete k (or_empty (get_elem? ds i)))

  -- The loop of `_cleanup_old_tasks`.
  unfoldable pub pop_tasks :
      List Aged → ℕ × List (Dict (TaskStatusDict R)) → ℕ × List (Dict (TaskStatusDict R))
  pop_tasks [] (n, ds) = (n, ds)
  pop_tasks (a ∷ ts) (n, ds) = pop_tasks ts (suc n, pop_at a.shard_idx a.task_id ds)

  -- `del shard_dict[key]` for each of the keys.
  unfoldable pub delete_each : List String → Dict (TaskStatusDict R) → Dict (TaskStatusDict R)
  delete_each [] d = d
  delete_each (k ∷ ks) d = delete_each ks (Dict.delete k d)

  -- The keys of a shard that are not kept.
  unfoldable pub keys_to_remove : (keep : List String) → Dict (TaskStatusDict R) → List String
  keys_to_remove keep d = select (λ k. not (StringSet.contains k keep)) (Dict.keys d)

-- The ids that the incremental form keeps of a shard that gives up at most `wanted` tasks.
-- `wanted` may be above the size in Python, where the maximum is 1 then, as it is here.
unfoldable pub kept_ids : {R : Type 0} → (wanted i : ℕ) → Dict (TaskStatusDict R) → List String
unfolding collect_shard_tasks
kept_ids wanted i d =
    let n = length d - wanted in ids_of (take (if leb n 1 then 1 else n) (collect_shard_tasks i d))

module _ (py : Runtime) where
  open py use {heapq.{heapify}}

  -- A heap without the entries of other tasks than those that are kept.
  abbrev pub kept_heap : (keep : List String) → List Expiry → List Expiry
  kept_heap keep heap = heapify (select (λ e. StringSet.contains e.task_id keep) heap)

  -- `_rebuild_expiry_heaps`
  abbrev pub rebuild_expiry_heaps : (keep : List String) → List (List Expiry) → List (List Expiry)
  rebuild_expiry_heaps keep heaps = map (kept_heap keep) heaps

-- What the loop over the shards hands back.
pub record Limited (R : Type 0) : Type 0 where
  pub count : ℕ
  pub shards : List (Dict (TaskStatusDict R))
  pub heaps : List (List Expiry)

module _ {R : Type 0} (py : Runtime) where
  -- `_enforce_max_count_full`
  unfoldable pub enforce_max_count_full : (max_count : ℕ) → Store R → ℕ × Store R
  unfolding pop_tasks collect_all_tasks
  enforce_max_count_full max_count s =
      let all_tasks = collect_all_tasks s in
      let (n, shards) = pop_tasks (drop max_count all_tasks) (0, s.shards) in
      if leb (get_total_count s) max_count then (0, s) else (
        n,
        record s {
          shards = shards;
          expiry_heaps = rebuild_expiry_heaps py (ids_of (take max_count all_tasks)) s.expiry_heaps;
        },
      )

  -- The body of the loop of `_enforce_max_count_incremental`, behind its `break`.
  unfoldable pub limit_shard :
      (excess cleaned i : ℕ)
      → Dict (TaskStatusDict R)
      → List Expiry
      → ℕ × (Dict (TaskStatusDict R) × List Expiry)
  unfolding kept_ids delete_each keys_to_remove
  limit_shard excess cleaned i d heap =
      let keep = kept_ids (excess - cleaned) i d in
      let removed = keys_to_remove keep d in
      if leb (length d) 1
      then (cleaned, (d, heap))
      else (cleaned + length removed, (delete_each removed d, kept_heap py keep heap))

  -- The loop over the shards, of which the first has the number `i`. There are as many heaps as
  -- shards: the second clause is never met.
  unfoldable pub limit_all :
      (excess cleaned i : ℕ) → List (Dict (TaskStatusDict R)) → List (List Expiry) → Limited R
  unfolding limit_shard
  limit_all excess cleaned i [] heaps = record { count = cleaned; shards = []; heaps = heaps }
  limit_all excess cleaned i (d ∷ ds) [] = record { count = cleaned; shards = d ∷ ds; heaps = [] }
  limit_all excess cleaned i (d ∷ ds) (h ∷ hs) =
      let (n, (d', h')) = limit_shard excess cleaned i d h in
      let rest = limit_all excess n (suc i) ds hs in
      if leb excess cleaned
      then record { count = cleaned; shards = d ∷ ds; heaps = h ∷ hs }
      else record { count = rest.count; shards = d' ∷ rest.shards; heaps = h' ∷ rest.heaps }

  -- `_enforce_max_count_incremental`
  unfoldable pub enforce_max_count_incremental : (max_count : ℕ) → Store R → ℕ × Store R
  unfolding limit_all
  enforce_max_count_incremental max_count s =
      let r = limit_all (get_total_count s - max_count) 0 0 s.shards s.expiry_heaps in
      if leb (get_total_count s) max_count
      then (0, s)
      else (r.count, record s { shards = r.shards; expiry_heaps = r.heaps })

  -- `total_count > max_count * 1.5` compares exactly.
  unfoldable pub enforce_max_count : (max_count : ℕ) → Store R → ℕ × Store R
  unfolding enforce_max_count_full enforce_max_count_incremental
  enforce_max_count max_count s =
      if leb (get_total_count s) max_count
      then (0, s)
      else (if ltb (3 * max_count) (2 * get_total_count s)
          then enforce_max_count_full max_count s
          else enforce_max_count_incremental max_count s)

  -- `TaskStatusManager.cleanup_old_task_status`
  unfoldable pub cleanup_old_task_status : (now max_task_status_count : ℕ) → Store R → ℕ × Store R
  unfolding enforce_max_count
  cleanup_old_task_status now max_task_status_count s =
      let (expired, s') = cleanup_expired py now s (some 100) in
      let (removed, s'') = enforce_max_count max_task_status_count s' in (expired + removed, s'')
