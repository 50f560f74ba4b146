-- ===== src/Status/Store.antt =====
-- `ShardedTaskStatusWithExpiry` of fish_async_task/task_status.py. Every method but
-- `get_total_count` runs under the locks of the shards that it touches; each is one step, and
-- `cleanup_expired`, which takes the locks one after the other, is run without interruption;
-- `resize_shards`, which gives the locks up halfway, is two. `hash` and `heapq` are parameters;
-- `now` is what `time.time()` returns.
pub mod View
pub mod Resize
pub mod Cleanup
pub mod Limit
use fish_async_task.Prelude.{
  ℕ, zero, suc, ◌+◌, ◌-◌, ◌≡◌, String, Bool, true, false, not, ◌&&◌, ◌||◌, ◌==◌, Option, none, some,
  List, [], ◌∷◌, ltb, leb, eqb, if◌then◌else◌, length, get_elem?, set, replicate,
}
use fish_async_task.Prelude.Int.{ℤ, mod_int}
use fish_async_task.Prelude.Dict
use fish_async_task.Prelude.Dict.{Dict}
use fish_async_task.Prelude.Heapq.{Heapq}
use fish_async_task.Status.{TaskStatus, TaskStatusDict, is_finished, truthy}

-- An entry of an expiry heap: the time of expiry and the task.
pub record Expiry : Type 0 where
  pub time : ℕ
  pub task_id : String

-- The comparison of the pairs `(expiry_time, task_id)`, given that of the ids.
abbrev pub expires_before : (String → String → Bool) → Expiry → Expiry → Bool
expires_before id_lt a b = ltb a.time b.time || (eqb a.time b.time && id_lt a.task_id b.task_id)

pub record Store (R : Type 0) : Type 0 where
  pub shard_count : ℕ
  pub ttl : ℕ
  pub shards : List (Dict (TaskStatusDict R))
  pub expiry_heaps : List (List Expiry)

abbrev pub or_empty {ℓ} : {A : Type ℓ} → Option (List A) → List A
or_empty none = []
or_empty (some l) = l

-- `__init__`
unfoldable pub new : {R : Type 0} → ℕ → ℕ → Store R
new shard_count ttl = record {
  shard_count = shard_count;
  ttl = ttl;
  shards = replicate shard_count [];
  expiry_heaps = replicate shard_count [];
}

-- `x.clear()` for each
abbrev pub clear_each {ℓ} : {A : Type ℓ} → List (List A) → List (List A)
clear_each [] = []
clear_each (d ∷ ds) = [] ∷ clear_each ds

module _ {R : Type 0} where
  -- `self.shards[i]`
  abbrev pub shard : Store R → ℕ → Dict (TaskStatusDict R)
  shard s i = or_empty (get_elem? s.shards i)

  abbrev pub sizes : List (Dict (TaskStatusDict R)) → ℕ
  sizes [] = 0
  sizes (d ∷ ds) = length d + sizes ds

  unfoldable pub get_total_count : Store R → ℕ
  get_total_count s = sizes s.shards

  unfoldable pub clear_all : Store R → Store R
  clear_all s = record s { shards = clear_each s.shards; expiry_heaps = clear_each s.expiry_heaps }

  -- `result.update(shard)` for each shard, from the first to the last.
  unfoldable pub collect :
      Dict (TaskStatusDict R) → List (Dict (TaskStatusDict R)) → Dict (TaskStatusDict R)
  collect all_tasks [] = all_tasks
  collect all_tasks (d ∷ ds) = collect (Dict.update all_tasks d) ds

  unfoldable pub get_all_statuses : Store R → Dict (TaskStatusDict R)
  unfolding collect
  get_all_statuses s = collect [] s.shards

-- `_get_shard_index`
unfoldable pub shard_index : (String → ℤ) → ℕ → String → ℕ
shard_index hash n k = mod_int (hash k) n

-- What the store takes from Python: `hash` and `<` on strings, and `heapq`.
pub record Runtime : Type 1 where
  pub hash : String → ℤ
  pub id_lt : String → String → Bool
  pub heapq : Heapq (expires_before id_lt)

module _ {R : Type 0} (py : Runtime) where
  open py use {hash, heapq.{heappush}}

  unfoldable pub get_status : Store R → String → Option (TaskStatusDict R)
  get_status s k = Dict.lookup k (shard s (shard_index hash s.shard_count k))

  -- The entry that a status adds to the heap of its shard, if it has ended.
  abbrev pub push_expiry : ℕ → String → TaskStatusDict R → List Expiry → List Expiry
  push_expiry ttl k st heap =
      if is_finished st.status
      then elim (truthy st.end_time) [
        | none ↦ heap
        | some t ↦ heappush (record { time = t + ttl; task_id = k }) heap
      ]
      else heap

  unfoldable pub update_status : Store R → String → TaskStatusDict R → Store R
  update_status s k st =
      let i = shard_index hash s.shard_count k in
      record s {
        shards = set s.shards i (Dict.insert k st (shard s i));
        expiry_heaps =
            set s.expiry_heaps i (push_expiry s.ttl k st (or_empty (get_elem? s.expiry_heaps i)));
      }

  unfoldable pub remove_status : Store R → String → Store R
  remove_status s k =
      let i = shard_index hash s.shard_count k in
      record s { shards = set s.shards i (Dict.delete k (shard s i)) }

  -- `resize_shards`, first half: all tasks, collected under all locks.
  unfoldable pub resize_collect : Store R → Dict (TaskStatusDict R)
  resize_collect s = get_all_statuses s

  -- The loop that gives the tasks to the new shards.
  unfoldable pub redistribute : Dict (TaskStatusDict R) → Store R → Store R
  unfolding update_status
  redistribute [] s = s
  redistribute ((k, st) ∷ tasks) s = redistribute tasks (update_status s k st)

  -- Second half: the new shards take the place of the old ones, whatever these hold by now.
  unfoldable pub resize_install : ℕ → Dict (TaskStatusDict R) → Store R → Store R
  unfolding redistribute new
  resize_install n tasks s = redistribute tasks (new n s.ttl)

  -- The whole call, where no other thread comes in between.
  unfoldable pub resize_shards : Store R → ℕ → Bool × Store R
  unfolding resize_collect resize_install
  resize_shards s n =
      if ltb n 1
      then (false, s)
      else (if eqb n s.shard_count
          then (true, s)
          else (true, resize_install n (resize_collect s) s))
