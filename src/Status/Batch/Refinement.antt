-- ===== src/Status/Batch/Refinement.antt =====
-- The batching against the updates written one by one.
use fish_async_task.Prelude.{
  ℕ, ◌≡◌, refl, ◌∙◌, sym, ap, subst, Bool, true, false, Option, none, some, List, [], ◌∷◌, length,
}
use fish_async_task.Status.Merge.{Update}
use fish_async_task.Status.Store.{Store, Runtime}
use fish_async_task.Status.Manager.{do_update_task_status}
use fish_async_task.Status.Manager.History.{update_all}
use fish_async_task.Status.Batch.{
  BatchedStatusUpdater, new, check_and_flush, force_flush, TaskStatusManager, new_updater,
  new_manager, shut_updater, shutdown, enable_batch_update, update_through, update_task_status,
  check_updater, pending_of, get_pending_update_count,
}
use fish_async_task.Status.Batch.Settled.{
  IsCoherent, none-IsCoherent, some-IsCoherent, settled, settled-update_through,
  settled-shut_updater, settled-check_updater, settled-enable, written,
}

-- The calls on the manager that change it, but for `clear_task_status` and `resize_shards`.
pub data Call (R : Type 0) : Type 0 where
  updates : (now : ℕ) → Update R → Call R
  checks : (now : ℕ) → Call R
  enables : (now : ℕ) → Bool → Call R
  shuts_down : Call R

-- The updates among them, in their order.
abbrev pub updates_of : {R : Type 0} → List (Call R) → List (Update R)
updates_of [] = []
updates_of (updates now u ∷ cs) = u ∷ updates_of cs
updates_of (checks now ∷ cs) = updates_of cs
updates_of (enables now on ∷ cs) = updates_of cs
updates_of (shuts_down ∷ cs) = updates_of cs

module _ {R : Type 0} (py : Runtime) where
  unfoldable pub step : TaskStatusManager R → Call R → TaskStatusManager R
  step m (updates now u) = update_task_status py now u m
  step m (checks now) = check_updater py now m m.batch_updater
  step m (enables now on) = enable_batch_update py now on m
  step m shuts_down = (shutdown py m).1

  unfoldable pub run : TaskStatusManager R → List (Call R) → TaskStatusManager R
  run m [] = m
  run m (c ∷ cs) = run (step m c) cs

  -- A step on the settled store: an update is written, and nothing else changes it.
  abbrev pub settle : Store R → Call R → Store R
  settle s (updates now u) = do_update_task_status py s u
  settle s (checks now) = s
  settle s (enables now on) = s
  settle s shuts_down = s

  pub update_through-IsCoherent :
      (now : ℕ) (u : Update R) (m : TaskStatusManager R) (on : Bool)
      (o : Option (BatchedStatusUpdater R))
      → m.use_batch_update ≡ on
      → m.batch_updater ≡ o
      → IsCoherent on o
      → IsCoherent
          (update_through py now u m on o).use_batch_update
          (update_through py now u m on o).batch_updater
  update_through-IsCoherent now u m true (some b) e f h = rw e tt
  update_through-IsCoherent now u m true none e f h = rw e tt
  update_through-IsCoherent now u m false o e f h = rw e (f ∙ h)

  pub shut_updater-none :
      (m : TaskStatusManager R) (o : Option (BatchedStatusUpdater R))
      → m.batch_updater ≡ o
      → (shut_updater py m o).1.batch_updater ≡ none
  shut_updater-none m none e = e
  shut_updater-none m (some b) e = refl

  pub check_updater-IsCoherent :
      (now : ℕ) (m : TaskStatusManager R) (o : Option (BatchedStatusUpdater R))
      → m.batch_updater ≡ o
      → IsCoherent m.use_batch_update o
      → IsCoherent
          (check_updater py now m o).use_batch_update
          (check_updater py now m o).batch_updater
  check_updater-IsCoherent now m none e h = rw e h
  check_updater-IsCoherent now m (some b) e h =
      some-IsCoherent m.use_batch_update b (check_and_flush py now (b, m.sharded_status)).0 h

  step-IsCoherent :
      (m : TaskStatusManager R) (c : Call R)
      → IsCoherent m.use_batch_update m.batch_updater
      → IsCoherent (step m c).use_batch_update (step m c).batch_updater
  unfolding step update_task_status enable_batch_update shutdown
  step-IsCoherent m (updates now u) h =
      update_through-IsCoherent now u m m.use_batch_update m.batch_updater refl refl h
  step-IsCoherent m (checks now) h = check_updater-IsCoherent now m m.batch_updater refl h
  step-IsCoherent m (enables now true) h = tt
  step-IsCoherent m (enables now false) h = shut_updater-none m m.batch_updater refl
  step-IsCoherent m shuts_down h =
      subst (IsCoherent (shut_updater py m m.batch_updater).1.use_batch_update)
        (sym (shut_updater-none m m.batch_updater refl))
        (none-IsCoherent R (shut_updater py m m.batch_updater).1.use_batch_update)

  settled-step :
      (m : TaskStatusManager R) (c : Call R)
      → IsCoherent m.use_batch_update m.batch_updater
      → settled py (step m c) ≡ settle (settled py m) c
  unfolding step update_task_status shutdown
  settled-step m (updates now u) h =
      settled-update_through py now u m m.use_batch_update m.batch_updater refl h
  settled-step m (checks now) h = settled-check_updater py now m m.batch_updater refl
  settled-step m (enables now on) h = settled-enable py now on m
  settled-step m shuts_down h = settled-shut_updater py m m.batch_updater refl

  settled-run :
      (cs : List (Call R)) (m : TaskStatusManager R)
      → IsCoherent m.use_batch_update m.batch_updater
      → (settled py (run m cs) ≡ update_all py (settled py m) (updates_of cs))
  unfolding run
  settled-run [] m h = refl
  settled-run (c ∷ cs) m h =
      settled-run cs (step m c) (step-IsCoherent m c h)
      ∙ ap (λ s. update_all py s (updates_of cs)) (settled-step m c h)
      ∙ one_more c
    where
      one_more :
          (c : Call R)
          → update_all py (settle (settled py m) c) (updates_of cs)
            ≡ update_all py (settled py m) (updates_of (c ∷ cs))
      one_more (updates now u) = refl
      one_more (checks now) = refl
      one_more (enables now on) = refl
      one_more shuts_down = refl

  -- What `shutdown` returns and leaves behind.
  pub record ShutDown (m : TaskStatusManager R) (s : Store R) : Type 0 where
    pub stored : (shutdown py m).1.sharded_status ≡ s
    pub nothing_waits : get_pending_update_count (shutdown py m).1 ≡ 0
    pub answer : (shutdown py m).0 ≡ get_pending_update_count m

  shutdown_all : (m : TaskStatusManager R) → ShutDown m (settled py m)
  unfolding shutdown get_pending_update_count
  shutdown_all m = record {
    stored = stored_by m.batch_updater refl;
    nothing_waits = rw (shut_updater-none m m.batch_updater refl) refl;
    answer = answered m.batch_updater;
  }
    where
      stored_by :
          (o : Option (BatchedStatusUpdater R))
          → m.batch_updater ≡ o
          → (shut_updater py m o).1.sharded_status ≡ update_all py m.sharded_status (pending_of o)
      stored_by none e = refl
      stored_by (some b) e = written py b m.sharded_status

      answered :
          (o : Option (BatchedStatusUpdater R)) → (shut_updater py m o).0 ≡ length (pending_of o)
      answered none = refl
      answered (some b) = unfold force_flush in refl

  -- Whatever sequence of updates, checks of the interval, switches of the batching and shutdowns a
  -- new manager sees, at whatever times, after the final `shutdown` the store is the one that all
  -- the updates, written one by one in their order, would have made; no update waits, and the
  -- number returned is that of the updates that waited.
  pub run-ShutDown :
      (now batch_size batch_flush_interval : ℕ) (s : Store R) (cs : List (Call R))
      → ShutDown
          (run (new_manager py now batch_size batch_flush_interval s) cs)
          (update_all py s (updates_of cs))
  unfolding new_manager enable_batch_update new_updater new
  run-ShutDown now batch_size batch_flush_interval s cs =
      let m = new_manager py now batch_size batch_flush_interval s in
      subst (ShutDown (run m cs)) (settled-run cs m tt) (shutdown_all (run m cs))
