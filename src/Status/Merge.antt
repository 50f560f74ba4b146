-- ===== src/Status/Merge.antt =====
-- `TaskStatusManager._merge_task_status` of fish_async_task/task_status.py.
use fish_async_task.Prelude.{ℕ, String, Option, none, some}
use fish_async_task.Status.{TaskStatus, TaskStatusDict}

-- The arguments of one update.
pub record Update (R : Type 0) : Type 0 where
  pub task_id : String
  pub status : TaskStatus
  pub start_time : Option ℕ
  pub end_time : Option ℕ
  pub result : Option R
  pub error : Option String
  pub submit_time : Option ℕ

-- `new if new is not None else old`
abbrev pub or_old {ℓ} : {A : Type ℓ} → Option A → Option A → Option A
or_old (some x) old = some x
or_old none old = old

unfoldable pub merge_task_status : {R : Type 0} → TaskStatusDict R → Update R → TaskStatusDict R
merge_task_status current u = record {
  status = some u.status;
  submit_time = or_old u.submit_time current.submit_time;
  start_time = or_old u.start_time current.start_time;
  end_time = or_old u.end_time current.end_time;
  result = or_old u.result current.result;
  error = or_old u.error current.error;
  worker_id = none;
}
