-- ===== src/TaskManager/Forced.antt =====
-- The two flushes of `get_task_status`.
use fish_async_task.Prelude.{
  ℕ, suc, ◌≡◌, refl, ◌∙◌, sym, ap, subst, String, Bool, true, Option, none, some, List, [], ◌∷◌,
  arith, ltb, if◌then◌else◌, length,
}
use fish_async_task.Status.Merge.{Update}
use fish_async_task.Status.Store.{Store, Runtime}
use fish_async_task.Status.Store.View.{IsValid}
use fish_async_task.Status.Manager.History.{update_all, do_update_task_status-IsValid}
use fish_async_task.Status.Batch.{BatchedStatusUpdater, TaskStatusManager, flush, force_flush}
use fish_async_task.Status.Batch.Settled.{IsCoherent, some-IsCoherent, settled, written}
use fish_async_task.Executor.{Pair}
use fish_async_task.Executor.Batching.{flush_pending_updates}
use fish_async_task.Executor.Settled.{
  Coherent, Settles, flush_pending-Settles, flush_pending_empties,
}
use fish_async_task.Executor.Kept.{Kept, flush_pending-Kept}
use fish_async_task.TaskManager.{force_updater, flush_all}

module _ {R : Type 0} (py : Runtime) where
  pub update_all-IsValid :
      (us : List (Update R)) (s : Store R) → IsValid py s → IsValid py (update_all py s us)
  update_all-IsValid [] s v = v
  update_all-IsValid (u ∷ us) s v = update_all-IsValid us _ (do_update_task_status-IsValid py s u v)

  force_flush_empties :
      (b : BatchedStatusUpdater R) (s : Store R) → (force_flush py (b, s)).1.0.batch ≡ []
  unfolding force_flush flush
  force_flush_empties b s = emptied b.batch refl
    where
      emptied :
          (us : List (Update R))
          → b.batch ≡ us
          → (if ltb 0 (length us) then flush py (b, s) else (b, s)).0.batch ≡ []
      emptied [] none_waits = none_waits
      emptied (u ∷ us) waits =
          let some_wait : ltb 0 (suc (length us)) ≡ true = ground arith in rw some_wait refl

  -- What a flush of the manager's batch leaves, under whichever updater.
  record Forced (m m' : TaskStatusManager R) : Type 0 where
    stored : m'.sharded_status ≡ settled py m
    unchanged : settled py m' ≡ settled py m
    coherent : Coherent m'

  force_updater-Forced :
      (m : TaskStatusManager R) (o : Option (BatchedStatusUpdater R))
      → m.batch_updater ≡ o
      → IsCoherent m.use_batch_update o
      → Forced m (force_updater py m o)
  force_updater-Forced m none e h = record {
    stored = rw e refl;
    unchanged = refl;
    coherent = rw e h;
  }
  force_updater-Forced m (some b) e h =
      let b' = (force_flush py (b, m.sharded_status)).1.0 in
      let stored : (force_flush py (b, m.sharded_status)).1.1 ≡ settled py m =
        rw e (written py b m.sharded_status) in
      record {
        stored = stored;
        unchanged =
            ap (update_all py (force_flush py (b, m.sharded_status)).1.1)
              (force_flush_empties b m.sharded_status)
            ∙ stored;
        coherent = some-IsCoherent m.use_batch_update b b' h;
      }

  -- After both flushes the store is the one that both batches settle to, and nothing waits.
  pub record Flushed (p : Pair R) (s : Store R) : Type 0 where
    pub stored : p.1.sharded_status ≡ s
    pub settles : Settles py p s

  pub flush_all-Flushed :
      (now : ℕ) (p : Pair R) (s : Store R) → Settles py p s → Flushed (flush_all py now p) s
  unfolding flush_all
  flush_all-Flushed now p s h =
      let p' = (flush_pending_updates py now p).1 in
      let r = flush_pending-Settles py now p s h in
      let empty = flush_pending_empties py now p in
      let f = force_updater-Forced p'.1 p'.1.batch_updater refl r.coherent in
      let same : settled py p'.1 ≡ s = sym (ap (update_all py (settled py p'.1)) empty) ∙ r.same in
      record {
        stored = f.stored ∙ same;
        settles = record {
          coherent = f.coherent;
          same =
              ap (update_all py (settled py (force_updater py p'.1 p'.1.batch_updater))) empty
              ∙ f.unchanged
              ∙ same;
        };
      }

  pub flush_all_empties : (now : ℕ) (p : Pair R) → (flush_all py now p).0.batch_updates ≡ []
  unfolding flush_all
  flush_all_empties now p = flush_pending_empties py now p

  pub flush_all-Kept :
      (quiet : Bool) (k : String) (now : ℕ) (p : Pair R)
      → Kept py quiet k p
      → Kept py quiet k (flush_all py now p)
  unfolding flush_all
  flush_all-Kept quiet k now p h =
      let p' = (flush_pending_updates py now p).1 in
      let r = flush_pending-Kept py quiet k now p h in
      let f = force_updater-Forced p'.1 p'.1.batch_updater refl r.coherent in
      record {
        coherent = f.coherent;
        valid = subst (IsValid py) (sym f.unchanged) r.valid;
        silent = r.silent;
      }
