-- ===== src/TaskManager/Reading.antt =====
-- What `get_task_status` returns, after any interleaving of the threads.
use fish_async_task.Prelude.{
  ℕ, ◌≡◌, refl, ◌∙◌, sym, ap, subst, String, Bool, true, false, not, Option, List, [], any, select,
}
use fish_async_task.Status.{TaskStatusDict}
use fish_async_task.Status.Store.{Runtime}
use fish_async_task.Status.Store.View.{IsValid}
use fish_async_task.Status.Manager.{read_current, or_unknown}
use fish_async_task.Status.Manager.History.{concerns, merge_all, update_all}
use fish_async_task.Status.Batch.{update_task_status, pending_of}
use fish_async_task.Status.Batch
use fish_async_task.Status.Batch.Settled.{IsCoherent, settled}
use fish_async_task.Executor.Settled.{settled_pair}
use fish_async_task.TaskManager.{TaskManager, pair_of, get_task_status, Event, run}
use fish_async_task.TaskManager.Knowing.{Known, run-Known}
use fish_async_task.TaskManager.Views.{settled_pair-Settles}
use fish_async_task.TaskManager.Forced.{flush_all_empties, flush_all-Flushed, flush_all-Kept}
use fish_async_task.TaskManager.History.{all_updates, noted_first}

module _ {F R : Type 0} (py : Runtime) (timeout_message : String → Option ℕ → String) where
  -- What the flushes of `get_task_status` know of a task is known afterwards with no update of it
  -- waiting in the executor.
  pub flushed-Known :
      (now : ℕ) (j : String) (seen : Bool) (k : String) (timeout : Option ℕ) (m : TaskManager F R)
      (st : TaskStatusDict R)
      → Known py timeout_message seen k timeout m st
      → Known py timeout_message false k timeout (get_task_status py now j m).1 st
  unfolding get_task_status
  flushed-Known now j seen k timeout m st h =
      let p = pair_of m in
      let f =
        flush_all-Flushed py now p (settled_pair py p)
          (settled_pair-Settles py (not seen) k p h.kept) in
      let r = flush_all-Kept py (not seen) k now p h.kept in
      record {
        kept = record {
          coherent = r.coherent;
          valid = r.valid;
          silent = λ q. ap (any (concerns k)) (flush_all_empties py now p);
        };
        view = ap (λ s. read_current py s k) f.settles.same ∙ h.view;
        same_timeout = h.same_timeout;
      }

  -- A manager of which nothing waits in a batch.
  pub start-Known :
      (k : String) (m : TaskManager F R)
      → IsValid py m.status_manager.sharded_status
      → m.status_manager.use_batch_update ≡ true
      → pending_of m.status_manager.batch_updater ≡ []
      → m.task_executor.batch_updates ≡ []
      → Known py timeout_message false k m.task_timeout m
          (read_current py m.status_manager.sharded_status k)
  start-Known k m v batching none_waits empty =
      let sm = m.status_manager in
      let at_start : settled_pair py (pair_of m) ≡ sm.sharded_status =
        ap (update_all py (settled py sm)) empty
        ∙ ap (update_all py sm.sharded_status) none_waits in
      record {
        kept = record {
          coherent = subst (λ on. IsCoherent on sm.batch_updater) (sym batching) tt;
          valid = subst (IsValid py) (sym (ap (update_all py sm.sharded_status) none_waits)) v;
          silent = λ q. ap (any (concerns k)) empty;
        };
        view = ap (λ s. read_current py s k) at_start;
        same_timeout = refl;
      }

  pub get_task_status-Known :
      (seen : Bool) (now : ℕ) (k : String) (timeout : Option ℕ) (m : TaskManager F R)
      (st : TaskStatusDict R)
      → Known py timeout_message seen k timeout m st
      → or_unknown (get_task_status py now k m).0 ≡ st
  unfolding get_task_status Batch.get_task_status read_current
  get_task_status-Known seen now k timeout m st h =
      let p = pair_of m in
      let f =
        flush_all-Flushed py now p (settled_pair py p)
          (settled_pair-Settles py (not seen) k p h.kept) in
      ap (λ s. read_current py s k) f.stored ∙ h.view

  -- A program starts with nothing in its batches. Then, in whatever order callers submit tasks,
  -- workers begin and finish them, with or without a timeout, and statuses are read,
  -- `get_task_status` returns what was known of the task at the start with all the updates of this
  -- task so far merged into it in the order in which they were made, as if there were no batch;
  -- provided that the task was noted as pending before its execution began.
  pub get_task_status_merged :
      (es : List (Event F R)) (now : ℕ) (k : String) (m : TaskManager F R)
      → IsValid py m.status_manager.sharded_status
      → m.status_manager.use_batch_update ≡ true
      → pending_of m.status_manager.batch_updater ≡ []
      → m.task_executor.batch_updates ≡ []
      → noted_first false k es ≡ true
      → or_unknown (get_task_status py now k (run py timeout_message m es)).0
        ≡ merge_all
            (read_current py m.status_manager.sharded_status k)
            (select (concerns k) (all_updates py timeout_message m.task_timeout es))
  get_task_status_merged es now k m v batching none_waits empty first =
      let st = read_current py m.status_manager.sharded_status k in
      let r =
        run-Known py timeout_message es false k m.task_timeout m st first
          (start-Known k m v batching none_waits empty) in
      get_task_status-Known r.0 now k m.task_timeout (run py timeout_message m es)
        (merge_all st (select (concerns k) (all_updates py timeout_message m.task_timeout es))) r.1
