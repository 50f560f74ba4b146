-- ===== src/Status.antt =====
-- fish_async_task/types.py and the merge of status updates of fish_async_task/task_status.py.
-- A key that a status dict lacks and a key with the value None read alike, as `none`. Times are
-- counted in ticks of the clock from the epoch; a task's result is an opaque `R`.
pub mod Store
pub mod Merge
pub mod Manager
pub mod Batch
use fish_async_task.Prelude.{ℕ, zero, suc, String, Bool, true, false, Option, none, some}

pub data TaskStatus : Type 0 where
  pending running completed failed : TaskStatus

pub record TaskStatusDict (R : Type 0) : Type 0 where
  pub status : Option TaskStatus
  pub submit_time : Option ℕ
  pub start_time : Option ℕ
  pub end_time : Option ℕ
  pub result : Option R
  pub error : Option String
  pub worker_id : Option String

-- `{}`
abbrev pub nothing_known : {R : Type 0} → TaskStatusDict R
nothing_known = record {
  status = none;
  submit_time = none;
  start_time = none;
  end_time = none;
  result = none;
  error = none;
  worker_id = none;
}

-- `status in ("completed", "failed")`
abbrev pub is_finished : Option TaskStatus → Bool
is_finished none = false
is_finished (some pending) = false
is_finished (some running) = false
is_finished (some completed) = true
is_finished (some failed) = true

-- `if end_time:`, which is false of None and of 0, and passes the time on.
abbrev pub truthy : Option ℕ → Option ℕ
truthy none = none
truthy (some zero) = none
truthy (some (suc t)) = some (suc t)
