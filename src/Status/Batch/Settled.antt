-- ===== src/Status/Batch/Settled.antt =====
-- The store as it will be once the batch is written, under each method of the batching.
use fish_async_task.Prelude.{
  ℕ, suc, ◌≡◌, refl, ◌∙◌, ap, Bool, true, false, ◌||◌, ◌&&◌, Option, none, some, List, [], ◌∷◌,
  ◌++◌, arith, leb, ltb, if◌then◌else◌, length, Bool-cases, inl, inr,
}
use fish_async_task.Status.Merge.{Update}
use fish_async_task.Status.Store.{Store, Runtime}
use fish_async_task.Status.Manager.{do_update_task_status}
use fish_async_task.Status.Manager.History.{update_all}
use fish_async_task.Status.Batch.{
  BatchedStatusUpdater, new, interval_over, apply_batch, flush, update, check_and_flush,
  force_flush, TaskStatusManager, new_updater, shut_updater, or_new, enable_batch_update,
  update_through, check_updater, pending_of,
}

-- Without batching there is no updater that could hold updates back.
abbrev pub IsCoherent : {R : Type 0} → Bool → Option (BatchedStatusUpdater R) → Type 0
IsCoherent true o = Unit
IsCoherent false o = o ≡ none

pub none-IsCoherent : (R : Type 0) (on : Bool) → IsCoherent {R = R} on none
none-IsCoherent R true = tt
none-IsCoherent R false = refl

pub some-IsCoherent :
    {R : Type 0} (on : Bool) (b b' : BatchedStatusUpdater R)
    → IsCoherent on (some b)
    → IsCoherent on (some b')
some-IsCoherent true b b' h = tt
some-IsCoherent false b b' h = absurd (ground arith)

module _ {R : Type 0} (py : Runtime) where
  apply_batch-eq_update_all :
      (us : List (Update R)) (s : Store R) → apply_batch py s us ≡ update_all py s us
  unfolding apply_batch
  apply_batch-eq_update_all [] s = refl
  apply_batch-eq_update_all (u ∷ us) s = apply_batch-eq_update_all us (do_update_task_status py s u)

  pub update_all-append :
      (us : List (Update R)) (u : Update R) (s : Store R)
      → update_all py s (us ++ (u ∷ [])) ≡ do_update_task_status py (update_all py s us) u
  update_all-append [] u s = refl
  update_all-append (w ∷ us) u s = update_all-append us u (do_update_task_status py s w)

  -- The store as it will be once the batch is written.
  abbrev pub settled : TaskStatusManager R → Store R
  settled m = update_all py m.sharded_status (pending_of m.batch_updater)

  -- The same of an updater and its store.
  abbrev settled_pair : BatchedStatusUpdater R × Store R → Store R
  settled_pair (b, s) = update_all py s b.batch

  settled-flush :
      (b : BatchedStatusUpdater R) (s : Store R)
      → settled_pair (flush py (b, s)) ≡ settled_pair (b, s)
  unfolding flush
  settled-flush b s = apply_batch-eq_update_all b.batch s

  settled-update :
      (now : ℕ) (u : Update R) (b : BatchedStatusUpdater R) (s : Store R)
      → settled_pair (update py now u (b, s)) ≡ do_update_task_status py (settled_pair (b, s)) u
  unfolding update
  settled-update now u b s =
      let b' : BatchedStatusUpdater R = record b { batch = b.batch ++ (u ∷ []) } in
      elim (Bool-cases (leb b.batch_size (length (b.batch ++ (u ∷ []))) || interval_over now b)) [
        | inl over ↦
            rw over
              (settled-flush (record b' { last_flush = now }) s ∙ update_all-append b.batch u s)
        | inr not_yet ↦ rw not_yet (update_all-append b.batch u s)
      ]

  settled-check_and_flush :
      (now : ℕ) (b : BatchedStatusUpdater R) (s : Store R)
      → settled_pair (check_and_flush py now (b, s)) ≡ settled_pair (b, s)
  unfolding check_and_flush
  settled-check_and_flush now b s =
      elim (Bool-cases (ltb 0 (length b.batch) && interval_over now b)) [
        | inl over ↦ rw over (settled-flush (record b { last_flush = now }) s)
        | inr not_yet ↦ rw not_yet refl
      ]

  pub written :
      (b : BatchedStatusUpdater R) (s : Store R) → (force_flush py (b, s)).1.1 ≡ settled_pair (b, s)
  unfolding force_flush flush
  written b s = go b.batch refl
    where
      go :
          (us : List (Update R))
          → b.batch ≡ us
          → (if ltb 0 (length us) then flush py (b, s) else (b, s)).1 ≡ update_all py s us
      go [] e = refl
      go (u ∷ us) e =
          let some_wait : ltb 0 (suc (length us)) ≡ true = ground arith in
          rw some_wait (ap (apply_batch py s) e ∙ apply_batch-eq_update_all (u ∷ us) s)

  pub settled-update_through :
      (now : ℕ) (u : Update R) (m : TaskStatusManager R) (on : Bool)
      (o : Option (BatchedStatusUpdater R))
      → m.batch_updater ≡ o
      → IsCoherent on o
      → settled (update_through py now u m on o) ≡ do_update_task_status py (settled m) u
  settled-update_through now u m true (some b) e c = rw e (settled-update now u b m.sharded_status)
  settled-update_through now u m true none e c = rw e refl
  settled-update_through now u m false (some b) e c = absurd (ground arith)
  settled-update_through now u m false none e c = rw e refl

  pub settled-shut_updater :
      (m : TaskStatusManager R) (o : Option (BatchedStatusUpdater R))
      → m.batch_updater ≡ o
      → settled (shut_updater py m o).1 ≡ settled m
  settled-shut_updater m none e = refl
  settled-shut_updater m (some b) e = rw e (written b m.sharded_status)

  pub settled-check_updater :
      (now : ℕ) (m : TaskStatusManager R) (o : Option (BatchedStatusUpdater R))
      → m.batch_updater ≡ o
      → settled (check_updater py now m o) ≡ settled m
  settled-check_updater now m none e = refl
  settled-check_updater now m (some b) e = rw e (settled-check_and_flush now b m.sharded_status)

  pub settled-enable :
      (now : ℕ) (on : Bool) (m : TaskStatusManager R)
      → settled (enable_batch_update py now on m) ≡ settled m
  unfolding enable_batch_update new_updater new
  settled-enable now true m = ap (update_all py m.sharded_status) (kept m.batch_updater)
    where
      kept :
          (o : Option (BatchedStatusUpdater R))
          → (or_new o (new_updater now m)).batch ≡ pending_of o
      kept none = refl
      kept (some b) = refl
  settled-enable now false m = settled-shut_updater m m.batch_updater refl
