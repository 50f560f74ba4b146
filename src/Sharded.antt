-- ===== src/Sharded.antt =====
-- `ShardedTaskStatus` of fish_async_task/performance/sharded_status.py. Each method holds the lock
-- of the shard that it works on, and those over all shards take one lock after the other: they are
-- modelled as one step, with no other thread in between. `hash_int` stands for the number that
-- `compute_shard_index` reads from the MD5 digest of the id.
pub mod Refinement
use fish_async_task.Prelude.{
  ℕ, zero, suc, ◌+◌, ◌%◌, String, Bool, true, false, ◌||◌, Option, none, some, List, [], ◌∷◌, ltb,
  if◌then◌else◌, length, get_elem?, set, replicate,
}
use fish_async_task.Prelude.Dict
use fish_async_task.Prelude.Dict.{Dict}
use fish_async_task.Status.{TaskStatusDict}
use fish_async_task.Status.Store.{or_empty, clear_each}

pub record ShardedTaskStatus (R : Type 0) : Type 0 where
  pub shard_count : ℕ
  pub shards : List (Dict (TaskStatusDict R))

-- `validate_shard_count(shard_count)` raises outside of 1 to 1024.
unfoldable pub validate_shard_count : ℕ → Bool
validate_shard_count n = if ltb n 1 || ltb 1024 n then false else true

-- `__init__`; `none` is the `ValueError`.
unfoldable pub new : {R : Type 0} → ℕ → Option (ShardedTaskStatus R)
unfolding validate_shard_count
new shard_count =
    if validate_shard_count shard_count
    then some (record { shard_count = shard_count; shards = replicate shard_count [] })
    else none

-- `_get_shard_index`: `compute_shard_index`, for a positive number of shards.
unfoldable pub compute_shard_index : (String → ℕ) → String → ℕ → ℕ
compute_shard_index hash_int task_id shard_count = hash_int task_id % shard_count

-- `self._shards[i]`
abbrev pub shard_at : {R : Type 0} → List (Dict (TaskStatusDict R)) → ℕ → Dict (TaskStatusDict R)
shard_at shards i = or_empty (get_elem? shards i)

module _ {R : Type 0} (hash_int : String → ℕ) where
  unfoldable pub get_status : ShardedTaskStatus R → String → Option (TaskStatusDict R)
  get_status s k = Dict.lookup k (shard_at s.shards (compute_shard_index hash_int k s.shard_count))

  unfoldable pub update_status :
      ShardedTaskStatus R → String → TaskStatusDict R → ShardedTaskStatus R
  update_status s k status =
      let i = compute_shard_index hash_int k s.shard_count in
      record s { shards = set s.shards i (Dict.insert k status (shard_at s.shards i)) }

  unfoldable pub remove_status : ShardedTaskStatus R → String → ShardedTaskStatus R
  remove_status s k =
      let i = compute_shard_index hash_int k s.shard_count in
      if Dict.has k (shard_at s.shards i)
      then record s { shards = set s.shards i (Dict.delete k (shard_at s.shards i)) }
      else s

module _ {R : Type 0} where
  -- The loop of `get_task_count`.
  unfoldable pub count_tasks : ℕ → List (Dict (TaskStatusDict R)) → ℕ
  count_tasks total_count [] = total_count
  count_tasks total_count (d ∷ ds) = count_tasks (total_count + length d) ds

  unfoldable pub get_task_count : ShardedTaskStatus R → ℕ
  unfolding count_tasks
  get_task_count s = count_tasks 0 s.shards

  -- The loop of `get_all_statuses`.
  unfoldable pub update_from :
      Dict (TaskStatusDict R) → List (Dict (TaskStatusDict R)) → Dict (TaskStatusDict R)
  update_from all_statuses [] = all_statuses
  update_from all_statuses (d ∷ ds) = update_from (Dict.update all_statuses d) ds

  unfoldable pub get_all_statuses : ShardedTaskStatus R → Dict (TaskStatusDict R)
  unfolding update_from
  get_all_statuses s = update_from [] s.shards

  unfoldable pub clear_all : ShardedTaskStatus R → ShardedTaskStatus R
  clear_all s = record s { shards = clear_each s.shards }
