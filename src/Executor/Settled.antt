-- ===== src/Executor/Settled.antt =====
-- The store as it will be once the two batches, of the executor and of the manager, are written.
use fish_async_task.Prelude.{
  ℕ, suc, ◌≡◌, refl, ◌∙◌, ap, true, ◌||◌, ◌&&◌, List, [], ◌∷◌, ◌++◌, arith, leb, ltb, if◌then◌else◌,
  length, Bool-cases, inl, inr,
}
use fish_async_task.Status.Merge.{Update}
use fish_async_task.Status.Store.{Store, Runtime}
use fish_async_task.Status.Manager.{do_update_task_status}
use fish_async_task.Status.Manager.History.{update_all}
use fish_async_task.Status.Batch.{TaskStatusManager, update_task_status}
use fish_async_task.Status.Batch.Settled.{
  IsCoherent, settled, settled-update_through, update_all-append,
}
use fish_async_task.Status.Batch.Refinement.{update_through-IsCoherent}
use fish_async_task.Executor.{TaskExecutor, interval_over, Pair}
use fish_async_task.Executor.Batching.{
  send_updates, flush_batch_updates, queue_status_update, check_and_flush_batch,
  flush_pending_updates,
}

abbrev pub Coherent : {R : Type 0} → TaskStatusManager R → Type 0
Coherent m = IsCoherent m.use_batch_update m.batch_updater

module _ {R : Type 0} (py : Runtime) where
  abbrev pub settled_pair : Pair R → Store R
  settled_pair (e, m) = update_all py (settled py m) e.batch_updates

  -- Once both batches are written, the store is `s`.
  pub record Settles (p : Pair R) (s : Store R) : Type 0 where
    pub coherent : Coherent p.1
    pub same : settled_pair p ≡ s

  pub update-Coherent :
      (now : ℕ) (u : Update R) (m : TaskStatusManager R)
      → Coherent m
      → Coherent (update_task_status py now u m)
  unfolding update_task_status
  update-Coherent now u m h =
      update_through-IsCoherent py now u m m.use_batch_update m.batch_updater refl refl h

  pub settled-update :
      (now : ℕ) (u : Update R) (m : TaskStatusManager R)
      → Coherent m
      → settled py (update_task_status py now u m) ≡ do_update_task_status py (settled py m) u
  unfolding update_task_status
  settled-update now u m h =
      settled-update_through py now u m m.use_batch_update m.batch_updater refl h

  send_updates-Settles :
      (now : ℕ) (us : List (Update R)) (e : TaskExecutor R) (m : TaskStatusManager R)
      → e.batch_updates ≡ []
      → Coherent m
      → Settles (e, send_updates py now us m) (update_all py (settled py m) us)
  unfolding send_updates
  send_updates-Settles now [] e m empty h = record {
    coherent = h;
    same = ap (update_all py (settled py m)) empty;
  }
  send_updates-Settles now (u ∷ us) e m empty h =
      let r =
        send_updates-Settles now us e (update_task_status py now u m) empty
          (update-Coherent now u m h) in
      record {
        coherent = r.coherent;
        same = r.same ∙ ap (λ s. update_all py s us) (settled-update now u m h);
      }

  emptied-Settles :
      (now : ℕ) (e : TaskExecutor R) (m : TaskStatusManager R) (s : Store R)
      → Settles (e, m) s
      → Settles (record e { batch_updates = [] }, send_updates py now e.batch_updates m) s
  emptied-Settles now e m s h =
      let r =
        send_updates-Settles now e.batch_updates (record e { batch_updates = [] }) m refl
          h.coherent in
      record { coherent = r.coherent; same = r.same ∙ h.same }

  flush-Settles :
      (now : ℕ) (p : Pair R) (s : Store R) → Settles p s → Settles (flush_batch_updates py now p) s
  unfolding flush_batch_updates
  flush-Settles now (e, m) s h = elim (Bool-cases (ltb 0 (length e.batch_updates))) [
    | inl waits ↦ rw waits (emptied-Settles now e m s h)
    | inr none_waits ↦ rw none_waits h
  ]

  pub queue-Settles :
      (now : ℕ) (u : Update R) (p : Pair R) (s : Store R)
      → Settles p s
      → Settles (queue_status_update py now u p) (do_update_task_status py s u)
  unfolding queue_status_update
  queue-Settles now u (e, m) s h =
      let e' : TaskExecutor R = record e { batch_updates = e.batch_updates ++ (u ∷ []) } in
      let appended =
        update_all-append py e.batch_updates u (settled py m)
        ∙ ap (λ s. do_update_task_status py s u) h.same in
      elim (Bool-cases
        (leb e.batch_size (length (e.batch_updates ++ (u ∷ []))) || interval_over now e)) [
          | inl over ↦ rw over (
              flush-Settles now (record e' { last_batch_flush = now }, m)
                (do_update_task_status py s u) (record { coherent = h.coherent; same = appended }))
          | inr not_yet ↦ rw not_yet (record { coherent = h.coherent; same = appended })
        ]

  pub check-Settles :
      (now : ℕ) (p : Pair R) (s : Store R)
      → Settles p s
      → Settles (check_and_flush_batch py now p) s
  unfolding check_and_flush_batch
  check-Settles now (e, m) s h =
      elim (Bool-cases (ltb 0 (length e.batch_updates) && interval_over now e)) [
        | inl over ↦ rw over (flush-Settles now (e, m) s h)
        | inr not_yet ↦ rw not_yet h
      ]

  pub flush_pending-Settles :
      (now : ℕ) (p : Pair R) (s : Store R)
      → Settles p s
      → Settles (flush_pending_updates py now p).1 s
  unfolding flush_pending_updates
  flush_pending-Settles now (e, m) s h = elim (Bool-cases (ltb 0 (length e.batch_updates))) [
    | inl waits ↦ rw waits (emptied-Settles now e m s h)
    | inr none_waits ↦ rw none_waits h
  ]

  -- After it nothing waits in the executor.
  pub flush_pending_empties :
      (now : ℕ) (p : Pair R) → (flush_pending_updates py now p).1.0.batch_updates ≡ []
  unfolding flush_pending_updates flush_batch_updates
  flush_pending_empties now (e, m) = emptied e.batch_updates refl
    where
      emptied :
          (us : List (Update R))
          → e.batch_updates ≡ us
          → (if ltb 0 (length us)
              then flush_batch_updates py now (e, m)
              else (e, m)).0.batch_updates
            ≡ []
      emptied [] none_waits = none_waits
      emptied (u ∷ us) waits =
          let some_wait : ltb 0 (suc (length us)) ≡ true = ground arith in
          rw (some_wait, ap (λ us. ltb 0 (length us)) waits ∙ some_wait) refl
