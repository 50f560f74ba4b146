-- ===== src/Status/Batch/Clearing.antt =====
-- `clear_task_status` of a task of which an update still waits in the batch.
use fish_async_task.Prelude.{
  ◌≡◌, refl, ◌∙◌, ap, String, Bool, true, false, ◌||◌, Option, none, some, List, [], ◌∷◌, arith,
  any, eq_refl,
}
use fish_async_task.Status.{TaskStatusDict}
use fish_async_task.Status.Merge.{Update, merge_task_status}
use fish_async_task.Status.Store.{Store, Runtime, get_status, remove_status}
use fish_async_task.Status.Store.View.{
  IsValid, get_status-update_status, get_status-remove_status, remove_status-IsValid,
}
use fish_async_task.Status.Manager.{read_current, write_merged, do_update_task_status}
use fish_async_task.Status.Manager.History.{concerns, update_all, do_update_task_status-IsValid}
use fish_async_task.Status.Batch.{
  BatchedStatusUpdater, TaskStatusManager, shut_updater, shutdown, get_task_status, clear_task,
}
use fish_async_task.Status.Batch.Settled.{written}

abbrev pub known : {R : Type 0} → Option (TaskStatusDict R) → Bool
known none = false
known (some st) = true

module _ {R : Type 0} (py : Runtime) where
  known-do_update_task_status :
      (s : Store R) (u : Update R) (k : String)
      → IsValid py s
      → known (get_status py (do_update_task_status py s u) k)
        ≡ (concerns k u || known (get_status py s k))
  unfolding do_update_task_status write_merged
  known-do_update_task_status s u k v = ground (
    arith,
    get_status-update_status py s u.task_id k (merge_task_status (read_current py s u.task_id) u) v,
  )

  pub known-update_all :
      (us : List (Update R)) (s : Store R) (k : String)
      → IsValid py s
      → known (get_status py (update_all py s us) k)
        ≡ (any (concerns k) us || known (get_status py s k))
  known-update_all [] s k v = refl
  known-update_all (u ∷ us) s k v =
      known-update_all us (do_update_task_status py s u) k (do_update_task_status-IsValid py s u v)
      ∙ ground (arith, known-do_update_task_status s u k v)

  found : (o : Option (TaskStatusDict R)) → known o ≡ true → (st : TaskStatusDict R) × (o ≡ some st)
  found none h = absurd (ground arith)
  found (some st) h = (st, refl)

  -- When an update of the task waits in the batch, `clear_task_status` of the task removes its
  -- status, but the next flush, here that of `shutdown`, brings a status of the task back.
  pub clear_task_undone :
      (m : TaskStatusManager R) (b : BatchedStatusUpdater R) (k : String)
      → IsValid py m.sharded_status
      → m.batch_updater ≡ some b
      → any (concerns k) b.batch ≡ true
      → (get_task_status py (clear_task py m k) k ≡ none)
        × ((st : TaskStatusDict R) × (get_task_status py (shutdown py (clear_task py m k)).1 k
              ≡ some st))
  unfolding get_task_status clear_task shutdown
  clear_task_undone m b k v has_updater waits =
      let s = remove_status py m.sharded_status k in
      (
        get_status-remove_status py m.sharded_status k k v ∙ rw (eq_refl k) refl,
        found
            (get_status py
              (shut_updater py (record m { sharded_status = s }) m.batch_updater).1.sharded_status
              k)
            (rw has_updater (
              ap (λ w. known (get_status py w k)) (written py b s)
              ∙ known-update_all b.batch s k (remove_status-IsValid py m.sharded_status k v)
              ∙ ground (arith, waits))),
      )
