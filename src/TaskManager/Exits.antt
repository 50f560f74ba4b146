-- ===== src/TaskManager/Exits.antt =====
-- A task that calls `sys.exit()`.
use fish_async_task.Prelude.{
  ℕ, ◌≡◌, refl, ◌∙◌, ap, String, eq_refl, true, false, ◌||◌, Option, some, List, [], arith, select,
  if◌then◌else◌, Bool-cases, inl, inr,
}
use fish_async_task.Status.{TaskStatusDict, running, completed}
use fish_async_task.Status.Merge.{merge_task_status}
use fish_async_task.Status.Store.{Runtime}
use fish_async_task.Status.Store.View.{IsValid}
use fish_async_task.Status.Manager.{read_current, or_unknown}
use fish_async_task.Status.Manager.History.{concerns, merge_all}
use fish_async_task.Status.Batch.{pending_of}
use fish_async_task.Executor.{system_exit}
use fish_async_task.Executor.Execution.{has_timeout, task_wrapper}
use fish_async_task.TaskManager.{TaskManager, get_task_status, Event, begins, finishes, step, run}
use fish_async_task.TaskManager.History.{updates_of, all_updates, executes_task, noted_first}
use fish_async_task.TaskManager.Reading.{start-Known, get_task_status-Known}
use fish_async_task.TaskManager.Knowing.{run-Known, step-Known}

module _ (F : Type 0) {R : Type 0} (py : Runtime)
    (timeout_message : String → Option ℕ → String) where
  status_after :
      (now start_time begun : ℕ) (k : String) (timeout : Option ℕ) (st : TaskStatusDict R)
      → (merge_all
          (merge_all st (
            select
              (concerns k)
              (updates_of {F = F} py timeout_message timeout (begins begun start_time k))))
          (select (concerns k) (
            updates_of {F = F} py timeout_message timeout
              (finishes now start_time k system_exit true)))).status
        ≡ some (if has_timeout timeout then completed else running)
  unfolding merge_task_status task_wrapper
  status_after now start_time begun k timeout st =
      rw (eq_refl k) (elim (Bool-cases (has_timeout timeout)) [
        | inl timed ↦ rw (timed, eq_refl k) refl
        | inr untimed ↦ rw untimed refl
      ])

module _ {F R : Type 0} (py : Runtime) (timeout_message : String → Option ℕ → String) where
  -- After any steps in which the task was noted before its execution, let it begin and then end by
  -- `sys.exit()`, and let any steps follow that do not update this task. Where the tasks have a
  -- timeout, and it ends in time, it reads as completed, since its thread swallows the exception;
  -- where they have none it still reads as running.
  pub exit_status :
      (es after : List (Event F R)) (now start_time begun later : ℕ) (k : String)
      (m : TaskManager F R)
      → IsValid py m.status_manager.sharded_status
      → m.status_manager.use_batch_update ≡ true
      → pending_of m.status_manager.batch_updater ≡ []
      → m.task_executor.batch_updates ≡ []
      → noted_first false k es ≡ true
      → noted_first true k after ≡ true
      → select (concerns k) (all_updates py timeout_message m.task_timeout after) ≡ []
      → (or_unknown
          (get_task_status py later k (
            run py timeout_message
              (step py timeout_message
                (step py timeout_message (run py timeout_message m es) (begins begun start_time k))
                (finishes now start_time k system_exit true))
              after)).0).status
        ≡ some (if has_timeout m.task_timeout then completed else running)
  exit_status es after now start_time begun later k m v batching none_waits empty first noted
        quiet =
      let o = m.task_timeout in
      let begin : Event F R = begins begun start_time k in
      let finish : Event F R = finishes now start_time k system_exit true in
      let at_start = read_current py m.status_manager.sharded_status k in
      let st = merge_all at_start (select (concerns k) (all_updates py timeout_message o es)) in
      let st' = merge_all st (select (concerns k) (updates_of py timeout_message o begin)) in
      let st'' = merge_all st' (select (concerns k) (updates_of py timeout_message o finish)) in
      let r =
        run-Known py timeout_message es false k o m at_start first
          (start-Known py timeout_message k m v batching none_waits empty) in
      let m' = step py timeout_message (run py timeout_message m es) begin in
      let b =
        step-Known py timeout_message r.0 k o (run py timeout_message m es) begin st (ground arith)
          r.1 in
      let f =
        step-Known py timeout_message (r.0 || executes_task k begin) k o m' finish st'
          (ground arith) b in
      let seen = (r.0 || executes_task k begin) || executes_task k finish in
      let begun_already : seen ≡ true = ground (arith, eq_refl k) in
      let l =
        run-Known py timeout_message after seen k o (step py timeout_message m' finish) st''
          (ap (λ b. noted_first b k after) begun_already ∙ noted) f in
      ap (λ st. st.status)
        (get_task_status-Known py timeout_message l.0 later k o
            (run py timeout_message (step py timeout_message m' finish) after)
            (merge_all st'' (select (concerns k) (all_updates py timeout_message o after))) l.1
          ∙ ap (merge_all st'') quiet)
      ∙ status_after F py timeout_message now start_time begun k o st
