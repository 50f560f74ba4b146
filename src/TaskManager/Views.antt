-- ===== src/TaskManager/Views.antt =====
-- What is known of a task once both batches are written, under further updates.
use fish_async_task.Prelude.{
  ℕ, ◌≡◌, refl, ◌∙◌, sym, ap, String, Bool, true, false, not, ◌||◌, List, [], ◌∷◌, ◌++◌, arith, any,
  select, Bool-cases, inl, inr,
}
use fish_async_task.Status.{TaskStatusDict}
use fish_async_task.Status.Merge.{Update, merge_task_status}
use fish_async_task.Status.Store.{Runtime}
use fish_async_task.Status.Store.View.{IsValid}
use fish_async_task.Status.Manager.{read_current, do_update_task_status}
use fish_async_task.Status.Manager.History.{
  concerns, merge_all, update_all, read-update_all, read-do_update_task_status,
  do_update_task_status-IsValid,
}
use fish_async_task.Status.Batch.{update_task_status}
use fish_async_task.Status.Batch
use fish_async_task.Status.Batch.Settled.{settled}
use fish_async_task.Executor.{TaskExecutor, Pair}
use fish_async_task.Executor.Settled.{Coherent, settled_pair, Settles, settled-update}
use fish_async_task.Executor.Kept.{Kept}
use fish_async_task.TaskManager.Forced.{update_all-IsValid}

module _ {R : Type 0} (py : Runtime) where
  pub merge_all-append :
      (us ws : List (Update R)) (k : String) (st : TaskStatusDict R)
      → merge_all st (select (concerns k) (us ++ ws))
        ≡ merge_all (merge_all st (select (concerns k) us)) (select (concerns k) ws)
  merge_all-append [] ws k st = refl
  merge_all-append (u ∷ us) ws k st = elim (Bool-cases (concerns k u)) [
    | inl mine ↦ rw mine (merge_all-append us ws k (merge_task_status st u))
    | inr other ↦ rw other (merge_all-append us ws k st)
  ]

  pub settled_pair-Settles :
      (quiet : Bool) (k : String) (p : Pair R)
      → Kept py quiet k p
      → Settles py p (settled_pair py p)
  settled_pair-Settles quiet k p h = record { coherent = h.coherent; same = refl }

  -- A step after which the batches settle to these further updates.
  pub read-Settles :
      (quiet : Bool) (k : String) (p p' : Pair R) (us : List (Update R)) (st : TaskStatusDict R)
      → Kept py quiet k p
      → Settles py p' (update_all py (settled_pair py p) us)
      → read_current py (settled_pair py p) k ≡ st
      → read_current py (settled_pair py p') k ≡ merge_all st (select (concerns k) us)
  read-Settles quiet k p p' us st h after_all e =
      ap (λ s. read_current py s k) after_all.same
      ∙ read-update_all py us (settled_pair py p) k
          (update_all-IsValid py p.0.batch_updates (settled py p.1) h.valid)
      ∙ ap (λ st. merge_all st (select (concerns k) us)) e

  pub merge_none :
      (k : String) (us : List (Update R)) (st : TaskStatusDict R)
      → any (concerns k) us ≡ false
      → merge_all st (select (concerns k) us) ≡ st
  merge_none k [] st h = refl
  merge_none k (u ∷ us) st h = elim (Bool-cases (concerns k u)) [
    | inl mine ↦ absurd (ground arith)
    | inr other ↦ rw other (merge_none k us st (ground arith))
  ]

  -- An update that reaches the manager past the batch of the executor.
  pub read-past_batch :
      (k : String) (now : ℕ) (u : Update R) (e : TaskExecutor R) (m : Batch.TaskStatusManager R)
      (st : TaskStatusDict R)
      → Coherent m
      → IsValid py (settled py m)
      → (concerns k u ≡ true → any (concerns k) e.batch_updates ≡ false)
      → read_current py (settled_pair py (e, m)) k ≡ st
      → read_current py (settled_pair py (e, update_task_status py now u m)) k
        ≡ merge_all st (select (concerns k) (u ∷ []))
  read-past_batch k now u e m st c v silent known =
      let us = e.batch_updates in
      let s = settled py m in
      let before_all = sym (read-update_all py us s k v) ∙ known in
      ap (λ s. read_current py (update_all py s us) k) (settled-update py now u m c)
      ∙ read-update_all py us (do_update_task_status py s u) k
          (do_update_task_status-IsValid py s u v)
      ∙ ap (λ st. merge_all st (select (concerns k) us)) (read-do_update_task_status py s u k v)
      ∙ elim (Bool-cases (concerns k u)) [
        | inl mine ↦ rw mine (
            merge_none k us (merge_task_status (read_current py s k) u) (silent mine)
            ∙ ap (λ st. merge_task_status st u)
                (sym (merge_none k us (read_current py s k) (silent mine)) ∙ before_all))
        | inr other ↦ rw other before_all
      ]

  pub weaken :
      (seen also : Bool) (k : String) (p : Pair R)
      → Kept py (not seen) k p
      → Kept py (not (seen || also)) k p
  weaken seen also k p h = record {
    coherent = h.coherent;
    valid = h.valid;
    silent = λ q. h.silent (ground arith);
  }
