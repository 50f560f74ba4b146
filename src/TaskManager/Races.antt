-- ===== src/TaskManager/Races.antt =====
-- The update of `submit_task`, which it makes after the task is in the queue.
use fish_async_task.Prelude.{
  ℕ, ◌≡◌, refl, ◌∙◌, sym, subst, String, eq_refl, true, false, Option, some, List, [], ◌∷◌, select,
}
use fish_async_task.Status.{TaskStatusDict, pending}
use fish_async_task.Status.Merge.{merge_task_status}
use fish_async_task.Status.Store.{Runtime}
use fish_async_task.Status.Store.View.{IsValid}
use fish_async_task.Status.Manager.{read_current, or_unknown}
use fish_async_task.Status.Manager.History.{concerns, merge_all}
use fish_async_task.Status.Batch.{pending_of}
use fish_async_task.TaskManager.{
  TaskManager, note_pending, pending_item, get_task_status, Event, notes, step, run,
}
use fish_async_task.TaskManager.History.{all_updates, noted_first}
use fish_async_task.TaskManager.Reading.{start-Known, flushed-Known, get_task_status-Known}
use fish_async_task.TaskManager.Knowing.{run-Known, step-Known}

-- The task reads as pending, and else as before.
pub record PendingAgain {R : Type 0} (st a : TaskStatusDict R) : Type 0 where
  pub status : a.status ≡ some pending
  pub result : a.result ≡ st.result
  pub error : a.error ≡ st.error
  pub end_time : a.end_time ≡ st.end_time

module _ {R : Type 0} where
  merged_pending :
      (now : ℕ) (k : String) (st : TaskStatusDict R)
      → merge_all st (select (concerns k) (pending_item now k ∷ []))
        ≡ merge_task_status st (pending_item now k)
  merged_pending now k st = rw (eq_refl k) refl

  is_pending :
      (now : ℕ) (k : String) (st : TaskStatusDict R)
      → PendingAgain st (merge_task_status st (pending_item now k))
  unfolding merge_task_status
  is_pending now k st = record { status = refl; result = refl; error = refl; end_time = refl }

module _ {F R : Type 0} (py : Runtime) (timeout_message : String → Option ℕ → String) where
  -- A worker may take, execute and finish a task, and a caller may read a status, before the thread
  -- that submits the task makes its update. Whatever was known of the task by then, completed or
  -- failed, it reads as pending from then on, with the result, the error and the end time of its
  -- execution.
  pub note_pending_late :
      (es : List (Event F R)) (t1 t2 t3 : ℕ) (j k : String) (m : TaskManager F R)
      → IsValid py m.status_manager.sharded_status
      → m.status_manager.use_batch_update ≡ true
      → pending_of m.status_manager.batch_updater ≡ []
      → m.task_executor.batch_updates ≡ []
      → noted_first false k es ≡ true
      → PendingAgain
          (merge_all
            (read_current py m.status_manager.sharded_status k)
            (select (concerns k) (all_updates py timeout_message m.task_timeout es)))
          (or_unknown
            (get_task_status py t3 k
              (note_pending py t2 k (get_task_status py t1 j (run py timeout_message m es)).1)).0)
  unfolding step
  note_pending_late es t1 t2 t3 j k m v batching none_waits empty first =
      let o = m.task_timeout in
      let at_start = read_current py m.status_manager.sharded_status k in
      let st = merge_all at_start (select (concerns k) (all_updates py timeout_message o es)) in
      let r =
        run-Known py timeout_message es false k o m at_start first
          (start-Known py timeout_message k m v batching none_waits empty) in
      let m_read = (get_task_status py t1 j (run py timeout_message m es)).1 in
      let f = flushed-Known py timeout_message t1 j r.0 k o (run py timeout_message m es) st r.1 in
      let noted = step-Known py timeout_message false k o m_read (notes t2 k) st refl f in
      let answer =
        get_task_status-Known py timeout_message false t3 k o (note_pending py t2 k m_read)
          (merge_all st (select (concerns k) (pending_item t2 k ∷ []))) noted
        ∙ merged_pending t2 k st in
      subst (PendingAgain st) (sym answer) (is_pending t2 k st)
