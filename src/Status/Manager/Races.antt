-- ===== src/Status/Manager/Races.antt =====
-- Two updates of one task that overlap: the read of one, then the other as a whole, then the write.
use fish_async_task.Prelude.{◌≡◌, refl, ◌∙◌, sym, some, eq_refl}
use fish_async_task.Status.Merge.{Update, merge_task_status}
use fish_async_task.Status.Store.{Store, Runtime, get_status}
use fish_async_task.Status.Store.View.{IsValid, get_status-update_status}
use fish_async_task.Status.Manager.{read_current, write_merged, do_update_task_status}
use fish_async_task.Status.Manager.History.{do_update_task_status-IsValid}

module _ {R : Type 0} (py : Runtime) where
  -- With batching switched off, in a valid store, when a whole update of a task runs between the
  -- read and the write of another update of this task, what is read then is what the other update
  -- alone would have left: the whole one is lost.
  pub update_lost :
      (s : Store R) (u w : Update R)
      → IsValid py s
      → w.task_id ≡ u.task_id
      → get_status py
          (write_merged py (do_update_task_status py s w) (read_current py s u.task_id) u)
          u.task_id
        ≡ get_status py (do_update_task_status py s u) u.task_id
  unfolding write_merged
  update_lost s u w v same =
      let st = merge_task_status (read_current py s u.task_id) u in
      let alone : get_status py (do_update_task_status py s u) u.task_id ≡ some st =
        (unfold do_update_task_status in
          (get_status-update_status py s u.task_id u.task_id st v ∙ rw (eq_refl u.task_id) refl)) in
      get_status-update_status py (do_update_task_status py s w) u.task_id u.task_id st
        (do_update_task_status-IsValid py s w v)
      ∙ rw (eq_refl u.task_id) refl
      ∙ sym alone
