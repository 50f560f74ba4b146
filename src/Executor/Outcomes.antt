-- ===== src/Executor/Outcomes.antt =====
-- The store as it will be once the two batches are written, under the two halves of `execute_task`.
use fish_async_task.Prelude.{
  ℕ, ◌≡◌, ◌∙◌, ap, subst, String, Bool, Option, none, some, List, [], ◌∷◌, arith, if◌then◌else◌,
  Bool-cases, inl, inr,
}
use fish_async_task.Status.{running, completed, failed}
use fish_async_task.Status.Merge.{Update}
use fish_async_task.Status.Store.{Store, Runtime}
use fish_async_task.Status.Manager.{do_update_task_status}
use fish_async_task.Status.Manager.History.{update_all}
use fish_async_task.Status.Batch.Settled.{settled}
use fish_async_task.Executor.{
  TaskExecutor, Outcome, returns, timeout_error, os_error, memory_error, other_error,
  keyboard_interrupt, system_exit, Pair, register_cancel_event, cleanup_cancel_event,
}
use fish_async_task.Executor.Batching.{update_item, record_task_failure}
use fish_async_task.Executor.Execution.{
  has_timeout, task_wrapper, begin_execute, execute_with_timeout, record_outcome, finish_execute,
}
use fish_async_task.Executor.Settled.{Settles, check-Settles, queue-Settles}

module _ {R : Type 0} (py : Runtime) where
  module _ (timeout_message : String → Option ℕ → String) where
    -- The update that an outcome makes `execute_task` queue, if any.
    abbrev pub outcome_updates : (now start_time : ℕ) → String → Outcome R → List (Update R)
    outcome_updates now start_time k (returns r) =
        update_item k completed (some start_time) (some now) r none ∷ []
    outcome_updates now start_time k (timeout_error message) =
        update_item k failed (some start_time) (some now) none (some message) ∷ []
    outcome_updates now start_time k (os_error message) =
        update_item k failed (some start_time) (some now) none (some message) ∷ []
    outcome_updates now start_time k (memory_error message) =
        update_item k failed (some start_time) (some now) none (some message) ∷ []
    outcome_updates now start_time k (other_error message) =
        update_item k failed (some start_time) (some now) none (some message) ∷ []
    outcome_updates now start_time k keyboard_interrupt =
        update_item k failed (some start_time) (some now) none (some "任务被中断") ∷ []
    outcome_updates now start_time k system_exit = []

    -- The outcome that `execute_task` sees.
    abbrev pub seen_outcome : String → Option ℕ → Outcome R → Bool → Outcome R
    seen_outcome k task_timeout outcome in_time =
        if has_timeout task_timeout
        then (if in_time
            then task_wrapper outcome
            else timeout_error (timeout_message k task_timeout))
        else outcome

    pub begin-Settles :
        (now start_time : ℕ) (k : String) (task_timeout : Option ℕ) (p : Pair R) (s : Store R)
        → Settles py p s
        → Settles py
            (begin_execute py timeout_message now start_time k task_timeout p)
            (do_update_task_status py s (update_item k running (some start_time) none none none))
    unfolding begin_execute register_cancel_event
    begin-Settles now start_time k task_timeout p s h =
        let r =
          queue-Settles py now (update_item k running (some start_time) none none none) p s h in
        elim (Bool-cases (has_timeout task_timeout)) [
          | inl timed ↦ rw timed (record { coherent = r.coherent; same = r.same })
          | inr untimed ↦ rw untimed (record { coherent = r.coherent; same = r.same })
        ]

    record_outcome-Settles :
        (now start_time : ℕ) (k : String) (outcome : Outcome R) (p : Pair R) (s : Store R)
        → Settles py p s
        → Settles py
            (record_outcome py timeout_message now start_time k outcome p).1
            (update_all py s (outcome_updates now start_time k outcome))
    unfolding record_outcome record_task_failure cleanup_cancel_event
    record_outcome-Settles now start_time k (returns r) (e, m) s h =
        queue-Settles py now (update_item k completed (some start_time) (some now) r none)
          (cleanup_cancel_event k e, m) s (record { coherent = h.coherent; same = h.same })
    record_outcome-Settles now start_time k (timeout_error message) p s h =
        queue-Settles py now (update_item k failed (some start_time) (some now) none (some message))
          p s h
    record_outcome-Settles now start_time k (os_error message) p s h =
        queue-Settles py now (update_item k failed (some start_time) (some now) none (some message))
          p s h
    record_outcome-Settles now start_time k (memory_error message) p s h =
        queue-Settles py now (update_item k failed (some start_time) (some now) none (some message))
          p s h
    record_outcome-Settles now start_time k (other_error message) p s h =
        queue-Settles py now (update_item k failed (some start_time) (some now) none (some message))
          p s h
    record_outcome-Settles now start_time k keyboard_interrupt p s h =
        queue-Settles py now (update_item k failed (some start_time) (some now) none (some "任务被中断"))
          p s h
    record_outcome-Settles now start_time k system_exit p s h = h

    pub execute_with_timeout_seen :
        (now : ℕ) (k : String) (task_timeout : Option ℕ) (outcome : Outcome R) (in_time : Bool)
        (e : TaskExecutor R)
        → ((execute_with_timeout py timeout_message now k task_timeout outcome in_time e).0
            ≡ seen_outcome k task_timeout outcome in_time)
          × ((execute_with_timeout py timeout_message now k task_timeout outcome in_time
                e).1.batch_updates
              ≡ e.batch_updates)
    unfolding execute_with_timeout
    execute_with_timeout_seen now k task_timeout outcome in_time e = ground arith

    pub finish-Settles :
        (now start_time : ℕ) (k : String) (task_timeout : Option ℕ) (outcome : Outcome R)
        (in_time : Bool) (p : Pair R) (s : Store R)
        → Settles py p s
        → Settles py
            (finish_execute py timeout_message now start_time k task_timeout outcome in_time p).1
            (update_all py s
              (outcome_updates now start_time k (seen_outcome k task_timeout outcome in_time)))
    unfolding finish_execute
    finish-Settles now start_time k task_timeout outcome in_time (e, m) s h =
        let x = execute_with_timeout py timeout_message now k task_timeout outcome in_time e in
        let seen = execute_with_timeout_seen now k task_timeout outcome in_time e in
        let kept = ap (update_all py (settled py m)) seen.1 ∙ h.same in
        check-Settles py now (record_outcome py timeout_message now start_time k x.0 (x.1, m)).1
          (update_all py s
            (outcome_updates now start_time k (seen_outcome k task_timeout outcome in_time)))
          (subst
            (λ o.
              Settles py (record_outcome py timeout_message now start_time k x.0 (x.1, m)).1
                (update_all py s (outcome_updates now start_time k o)))
            seen.0
            (record_outcome-Settles now start_time k x.0 (x.1, m) s
              (record { coherent = h.coherent; same = kept })))
