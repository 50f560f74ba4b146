-- ===== src/Executor/Kept.antt =====
-- What the methods of the executor keep: the store valid, and the batch free of a task's updates.
use fish_async_task.Prelude.{
  ℕ, ◌≡◌, refl, ◌∙◌, sym, ap, subst, String, ◌==◌, Bool, true, false, ◌||◌, ◌&&◌, Option, none,
  some, List, [], ◌∷◌, ◌++◌, arith, leb, ltb, length, any, any-append, Bool-cases, inl, inr,
}
use fish_async_task.Status.{running, completed, failed}
use fish_async_task.Status.Merge.{Update}
use fish_async_task.Status.Store.{Runtime}
use fish_async_task.Status.Store.View.{IsValid}
use fish_async_task.Status.Manager.History.{concerns, do_update_task_status-IsValid}
use fish_async_task.Status.Batch.{TaskStatusManager, update_task_status}
use fish_async_task.Status.Batch.Settled.{settled}
use fish_async_task.Executor.{
  TaskExecutor, Outcome, returns, timeout_error, os_error, memory_error, other_error,
  keyboard_interrupt, system_exit, interval_over, Pair, register_cancel_event, cleanup_cancel_event,
}
use fish_async_task.Executor.Batching.{
  update_item, send_updates, flush_batch_updates, queue_status_update, check_and_flush_batch,
  flush_pending_updates, record_task_failure,
}
use fish_async_task.Executor.Execution.{
  has_timeout, begin_execute, execute_with_timeout, record_outcome, finish_execute,
}
use fish_async_task.Executor.Settled.{Coherent, update-Coherent, settled-update}
use fish_async_task.Executor.Outcomes.{execute_with_timeout_seen}

module _ {R : Type 0} (py : Runtime) where
  -- The manager's batch settles to a valid store, and the executor's has no update of the task `k`
  -- where `quiet` says so.
  pub record Kept (quiet : Bool) (k : String) (p : Pair R) : Type 0 where
    pub coherent : Coherent p.1
    pub valid : IsValid py (settled py p.1)
    pub silent : quiet ≡ true → any (concerns k) p.0.batch_updates ≡ false

  -- The part that is about the manager.
  record ManagerKept (m : TaskStatusManager R) : Type 0 where
    coherent : Coherent m
    valid : IsValid py (settled py m)

  update-ManagerKept :
      (now : ℕ) (u : Update R) (m : TaskStatusManager R)
      → ManagerKept m
      → ManagerKept (update_task_status py now u m)
  update-ManagerKept now u m h = record {
    coherent = update-Coherent py now u m h.coherent;
    valid =
        subst (IsValid py) (sym (settled-update py now u m h.coherent))
          (do_update_task_status-IsValid py (settled py m) u h.valid);
  }

  send_updates-ManagerKept :
      (now : ℕ) (us : List (Update R)) (m : TaskStatusManager R)
      → ManagerKept m
      → ManagerKept (send_updates py now us m)
  unfolding send_updates
  send_updates-ManagerKept now [] m h = h
  send_updates-ManagerKept now (u ∷ us) m h =
      send_updates-ManagerKept now us (update_task_status py now u m) (update-ManagerKept now u m h)

  pub update-Kept :
      (quiet : Bool) (k : String) (now : ℕ) (u : Update R) (e : TaskExecutor R)
      (m : TaskStatusManager R)
      → Kept quiet k (e, m)
      → Kept quiet k (e, update_task_status py now u m)
  update-Kept quiet k now u e m h =
      let r = update-ManagerKept now u m (record { coherent = h.coherent; valid = h.valid }) in
      record { coherent = r.coherent; valid = r.valid; silent = h.silent }

  emptied-Kept :
      (quiet : Bool) (k : String) (now : ℕ) (us : List (Update R)) (e : TaskExecutor R)
      (m : TaskStatusManager R)
      → e.batch_updates ≡ []
      → ManagerKept m
      → Kept quiet k (e, send_updates py now us m)
  emptied-Kept quiet k now us e m empty h =
      let r = send_updates-ManagerKept now us m h in
      record { coherent = r.coherent; valid = r.valid; silent = λ q. ap (any (concerns k)) empty }

  flush-Kept :
      (quiet : Bool) (k : String) (now : ℕ) (e : TaskExecutor R) (m : TaskStatusManager R)
      → ManagerKept m
      → (quiet ≡ true → any (concerns k) e.batch_updates ≡ false)
      → Kept quiet k (flush_batch_updates py now (e, m))
  unfolding flush_batch_updates
  flush-Kept quiet k now e m h q = elim (Bool-cases (ltb 0 (length e.batch_updates))) [
    | inl waits ↦
        rw waits
          (emptied-Kept quiet k now e.batch_updates (record e { batch_updates = [] }) m refl h)
    | inr none_waits ↦ rw none_waits (record { coherent = h.coherent; valid = h.valid; silent = q })
  ]

  queue-Kept :
      (quiet : Bool) (k : String) (now : ℕ) (u : Update R) (p : Pair R)
      → (quiet ≡ true → concerns k u ≡ false)
      → Kept quiet k p
      → Kept quiet k (queue_status_update py now u p)
  unfolding queue_status_update
  queue-Kept quiet k now u (e, m) other h =
      let e' : TaskExecutor R = record e { batch_updates = e.batch_updates ++ (u ∷ []) } in
      let silent : quiet ≡ true → any (concerns k) (e.batch_updates ++ (u ∷ [])) ≡ false = λ q.
        ground (arith, other q, h.silent q, any-append (concerns k) e.batch_updates (u ∷ [])) in
      elim (Bool-cases
        (leb e.batch_size (length (e.batch_updates ++ (u ∷ []))) || interval_over now e)) [
          | inl over ↦ rw over (
              flush-Kept quiet k now (record e' { last_batch_flush = now }) m
                (record { coherent = h.coherent; valid = h.valid }) silent)
          | inr not_yet ↦
              rw not_yet (record { coherent = h.coherent; valid = h.valid; silent = silent })
        ]

  check-Kept :
      (quiet : Bool) (k : String) (now : ℕ) (p : Pair R)
      → Kept quiet k p
      → Kept quiet k (check_and_flush_batch py now p)
  unfolding check_and_flush_batch
  check-Kept quiet k now (e, m) h =
      elim (Bool-cases (ltb 0 (length e.batch_updates) && interval_over now e)) [
        | inl over ↦ rw over (
            flush-Kept quiet k now e m (record { coherent = h.coherent; valid = h.valid }) h.silent)
        | inr not_yet ↦ rw not_yet h
      ]

  pub flush_pending-Kept :
      (quiet : Bool) (k : String) (now : ℕ) (p : Pair R)
      → Kept quiet k p
      → Kept quiet k (flush_pending_updates py now p).1
  unfolding flush_pending_updates
  flush_pending-Kept quiet k now (e, m) h = elim (Bool-cases (ltb 0 (length e.batch_updates))) [
    | inl waits ↦ rw waits (
        emptied-Kept quiet k now e.batch_updates (record e { batch_updates = [] }) m refl
          (record { coherent = h.coherent; valid = h.valid }))
    | inr none_waits ↦ rw none_waits h
  ]

  module _ (timeout_message : String → Option ℕ → String) where
    pub begin-Kept :
        (quiet : Bool) (k : String) (now start_time : ℕ) (j : String) (task_timeout : Option ℕ)
        (p : Pair R)
        → (quiet ≡ true → (j == k) ≡ false)
        → Kept quiet k p
        → Kept quiet k (begin_execute py timeout_message now start_time j task_timeout p)
    unfolding begin_execute register_cancel_event
    begin-Kept quiet k now start_time j task_timeout p other h =
        let r =
          queue-Kept quiet k now (update_item j running (some start_time) none none none) p other
            h in
        elim (Bool-cases (has_timeout task_timeout)) [
          | inl timed ↦
              rw timed (record { coherent = r.coherent; valid = r.valid; silent = r.silent })
          | inr untimed ↦ rw untimed r
        ]

    record_outcome-Kept :
        (quiet : Bool) (k : String) (now start_time : ℕ) (j : String) (outcome : Outcome R)
        (p : Pair R)
        → (quiet ≡ true → (j == k) ≡ false)
        → Kept quiet k p
        → Kept quiet k (record_outcome py timeout_message now start_time j outcome p).1
    unfolding record_outcome record_task_failure cleanup_cancel_event
    record_outcome-Kept quiet k now start_time j (returns r) (e, m) other h =
        queue-Kept quiet k now (update_item j completed (some start_time) (some now) r none)
          (cleanup_cancel_event j e, m) other
          (record { coherent = h.coherent; valid = h.valid; silent = h.silent })
    record_outcome-Kept quiet k now start_time j (timeout_error message) p other h =
        queue-Kept quiet k now
          (update_item j failed (some start_time) (some now) none (some message)) p other h
    record_outcome-Kept quiet k now start_time j (os_error message) p other h =
        queue-Kept quiet k now
          (update_item j failed (some start_time) (some now) none (some message)) p other h
    record_outcome-Kept quiet k now start_time j (memory_error message) p other h =
        queue-Kept quiet k now
          (update_item j failed (some start_time) (some now) none (some message)) p other h
    record_outcome-Kept quiet k now start_time j (other_error message) p other h =
        queue-Kept quiet k now
          (update_item j failed (some start_time) (some now) none (some message)) p other h
    record_outcome-Kept quiet k now start_time j keyboard_interrupt p other h =
        queue-Kept quiet k now
          (update_item j failed (some start_time) (some now) none (some "任务被中断")) p other h
    record_outcome-Kept quiet k now start_time j system_exit p other h = h

    pub finish-Kept :
        (quiet : Bool) (k : String) (now start_time : ℕ) (j : String) (task_timeout : Option ℕ)
        (outcome : Outcome R) (in_time : Bool) (p : Pair R)
        → (quiet ≡ true → (j == k) ≡ false)
        → Kept quiet k p
        → Kept quiet k
            (finish_execute py timeout_message now start_time j task_timeout outcome in_time p).1
    unfolding finish_execute
    finish-Kept quiet k now start_time j task_timeout outcome in_time (e, m) other h =
        let x = execute_with_timeout py timeout_message now j task_timeout outcome in_time e in
        let seen =
          execute_with_timeout_seen py timeout_message now j task_timeout outcome in_time e in
        check-Kept quiet k now (record_outcome py timeout_message now start_time j x.0 (x.1, m)).1 (
          record_outcome-Kept quiet k now start_time j x.0 (x.1, m) other
            (record {
              coherent = h.coherent;
              valid = h.valid;
              silent = λ q. ap (any (concerns k)) seen.1 ∙ h.silent q;
            }))
