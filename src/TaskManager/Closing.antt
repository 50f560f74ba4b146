-- ===== src/TaskManager/Closing.antt =====
-- What is left of the tasks after `shutdown`.
use fish_async_task.Prelude.{
  ℕ, ◌≡◌, refl, ◌∙◌, sym, ap, subst, String, ◌||◌, List, [], ◌∷◌, arith, any, length,
}
use fish_async_task.Prelude.Dict
use fish_async_task.Status.Store.{Store, Runtime, clear_all, clear_each, get_status}
use fish_async_task.Status.Store.View.{IsValid}
use fish_async_task.Status.Store.Resize.{get_elem?-clear_each, get_status-clear_all}
use fish_async_task.Status.Manager.{clear_task_status}
use fish_async_task.Status.Manager.History.{concerns, update_all}
use fish_async_task.Status.Batch.{pending_of}
use fish_async_task.Status.Batch
use fish_async_task.Status.Batch.Clearing.{known, known-update_all}
use fish_async_task.Executor.Settled.{Coherent, settled_pair}
use fish_async_task.TaskManager.{TaskManager, pair_of, get_task_status, end_shutdown}
use fish_async_task.TaskManager.Forced.{update_all-IsValid, flush_all-Flushed}

length-clear_each : {A : Type 0} (ds : List (List A)) → length (clear_each ds) ≡ length ds
length-clear_each [] = refl
length-clear_each (d ∷ ds) = omega (arith, length-clear_each ds)

module _ {R : Type 0} (py : Runtime) where
  clear_all-IsValid : (s : Store R) → IsValid py s → IsValid py (clear_all s)
  unfolding clear_all Dict.has
  clear_all-IsValid s v = record {
    positive = v.positive;
    shard_lengths = length-clear_each s.shards ∙ v.shard_lengths;
    heap_lengths = length-clear_each s.expiry_heaps ∙ v.heap_lengths;
    placed = λ i k e. absurd (ground (arith, ap (Dict.has k) (get_elem?-clear_each s.shards i)));
    unique = λ i. subst Dict.HasUniqueKeys (sym (get_elem?-clear_each s.shards i)) tt;
  }

module _ {F R : Type 0} (py : Runtime) where
  -- `shutdown` clears the store and neither batch. Afterwards `get_task_status` finds a status for
  -- exactly the tasks of which an update still waits, in the batch of the executor or in that of
  -- the status manager.
  pub end_shutdown_leaves :
      (now : ℕ) (k : String) (m : TaskManager F R)
      → IsValid py m.status_manager.sharded_status
      → Coherent m.status_manager
      → known (get_task_status py now k (end_shutdown py m)).0 ≡ (
          any (concerns k) m.task_executor.batch_updates
          || any (concerns k) (pending_of m.status_manager.batch_updater))
  unfolding get_task_status end_shutdown Batch.get_task_status clear_task_status
  end_shutdown_leaves now k m v c =
      let us = m.task_executor.batch_updates in
      let waiting = pending_of m.status_manager.batch_updater in
      let s = clear_all m.status_manager.sharded_status in
      let valid = clear_all-IsValid py m.status_manager.sharded_status v in
      let p = pair_of (end_shutdown py m) in
      let f =
        flush_all-Flushed py now p (settled_pair py p) (record { coherent = c; same = refl }) in
      ap (λ s. known (get_status py s k)) f.stored
      ∙ known-update_all py us (update_all py s waiting) k (update_all-IsValid py waiting s valid)
      ∙ ground (
        arith,
        known-update_all py waiting s k valid,
        get_status-clear_all py m.status_manager.sharded_status k,
      )
