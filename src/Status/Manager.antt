-- ===== src/Status/Manager.antt =====
-- `TaskStatusManager` of fish_async_task/task_status.py without its batching, which is in
-- Status/Batch.antt: an update reads the task's status under the read lock of its shard, merges,
-- and writes the result under the write lock. These are two steps, between which other threads may
-- run.
pub mod History
pub mod Races
use fish_async_task.Prelude.{String, Option, none, some, ◌==◌, if◌then◌else◌}
use fish_async_task.Status.{TaskStatusDict, nothing_known}
use fish_async_task.Status.Merge.{Update, merge_task_status}
use fish_async_task.Status.Store.{
  Store, Runtime, get_status, update_status, remove_status, clear_all,
}

-- `status or {}`
abbrev pub or_unknown : {R : Type 0} → Option (TaskStatusDict R) → TaskStatusDict R
or_unknown none = nothing_known
or_unknown (some st) = st

module _ {R : Type 0} (py : Runtime) where
  -- The first step of `_do_update_task_status`.
  unfoldable pub read_current : Store R → String → TaskStatusDict R
  read_current s k = or_unknown (get_status py s k)

  -- Its second step.
  unfoldable pub write_merged : Store R → TaskStatusDict R → Update R → Store R
  write_merged s current u = update_status py s u.task_id (merge_task_status current u)

  -- `_do_update_task_status` with nothing in between.
  unfoldable pub do_update_task_status : Store R → Update R → Store R
  unfolding read_current write_merged
  do_update_task_status s u = write_merged s (read_current s u.task_id) u

  unfoldable pub get_task_status : Store R → String → Option (TaskStatusDict R)
  get_task_status s k = get_status py s k

  -- The empty string reads as no id.
  unfoldable pub clear_task_status : Store R → Option String → Store R
  clear_task_status s none = clear_all s
  clear_task_status s (some k) = if k == "" then clear_all s else remove_status py s k
