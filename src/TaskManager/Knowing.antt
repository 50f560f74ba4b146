-- ===== src/TaskManager/Knowing.antt =====
-- What is known of a task under each step of the program.
use fish_async_task.Prelude.{
  ℕ, ◌≡◌, refl, ◌∙◌, sym, ap, subst, String, ◌==◌, Bool, true, false, not, ◌||◌, ◌&&◌, Option, none,
  some, List, [], ◌∷◌, arith, ltb, length, select, Bool-cases, inl, inr,
}
use fish_async_task.Status.{TaskStatusDict, running}
use fish_async_task.Status.Store.{Runtime}
use fish_async_task.Status.Manager.{read_current}
use fish_async_task.Status.Manager.History.{concerns, merge_all}
use fish_async_task.Executor.Batching.{update_item}
use fish_async_task.Executor.Execution.{begin_execute, finish_execute}
use fish_async_task.Executor.Settled.{settled_pair}
use fish_async_task.Executor.Outcomes.{outcome_updates, seen_outcome, begin-Settles, finish-Settles}
use fish_async_task.Executor.Kept.{Kept, update-Kept, begin-Kept, finish-Kept}
use fish_async_task.TaskManager.{
  TaskManager, default_queue_size, pair_of, put_task, or_refused, schedule_scale_check,
  still_scheduled, note_pending, pending_item, get_task_status, Event, puts, notes, schedules,
  scales, takes, begins, finishes, reads, step, run, flush_all, delayed_scale_check,
}
use fish_async_task.TaskManager.Views.{
  weaken, merge_all-append, settled_pair-Settles, read-Settles, read-past_batch,
}
use fish_async_task.TaskManager.Forced.{flush_all-Flushed, flush_all-Kept}
use fish_async_task.TaskManager.History.{
  updates_of, all_updates, notes_task, executes_task, noted_first,
}

module _ {F R : Type 0} (py : Runtime) (timeout_message : String → Option ℕ → String) where
  -- What is known of the task `k` once both batches are written. `seen` tells that the execution of
  -- the task has begun.
  pub record Known (seen : Bool) (k : String) (timeout : Option ℕ) (m : TaskManager F R)
      (st : TaskStatusDict R) : Type 0 where
    pub kept : Kept py (not seen) k (pair_of m)
    pub view : read_current py (settled_pair py (pair_of m)) k ≡ st
    pub same_timeout : m.task_timeout ≡ timeout

  -- A step that leaves the executor and the status manager alone.
  same_pair :
      (seen also : Bool) (k : String) (timeout : Option ℕ) (m m' : TaskManager F R)
      (st : TaskStatusDict R)
      → pair_of m' ≡ pair_of m
      → m'.task_timeout ≡ m.task_timeout
      → Known seen k timeout m st
      → Known (seen || also) k timeout m' st
  same_pair seen also k timeout m m' st e t h = record {
    kept = weaken py seen also k (pair_of m') (subst (Kept py (not seen) k) (sym e) h.kept);
    view = ap (λ p. read_current py (settled_pair py p) k) e ∙ h.view;
    same_timeout = t ∙ h.same_timeout;
  }

  put_task-same :
      (j : String) (f : F) (m : TaskManager F R)
      → (pair_of (or_refused m (put_task j f m)) ≡ pair_of m)
        × ((or_refused m (put_task j f m)).task_timeout ≡ m.task_timeout)
  unfolding put_task
  put_task-same j f m =
      elim (Bool-cases (ltb (length m.worker_manager.task_queue) default_queue_size)) [
        | inl room ↦ rw room (refl, refl)
        | inr full ↦ rw full (refl, refl)
      ]

  schedule-same :
      (now : ℕ) (m : TaskManager F R)
      → (pair_of (schedule_scale_check now m) ≡ pair_of m)
        × ((schedule_scale_check now m).task_timeout ≡ m.task_timeout)
  unfolding schedule_scale_check
  schedule-same now m = elim (Bool-cases (still_scheduled now m)) [
    | inl scheduled ↦ rw scheduled (refl, refl)
    | inr free ↦ rw free (refl, refl)
  ]

  pub step-Known :
      (seen : Bool) (k : String) (timeout : Option ℕ) (m : TaskManager F R) (e : Event F R)
      (st : TaskStatusDict R)
      → not (seen && notes_task k e) ≡ true
      → Known seen k timeout m st
      → Known
          (seen || executes_task k e)
          k
          timeout
          (step py timeout_message m e)
          (merge_all st (select (concerns k) (updates_of py timeout_message timeout e)))
  unfolding step note_pending get_task_status delayed_scale_check
  step-Known seen k timeout m (puts j f) st first h =
      let same = put_task-same j f m in
      same_pair seen false k timeout m (or_refused m (put_task j f m)) st same.0 same.1 h
  step-Known seen k timeout m (notes now j) st first h = record {
    kept = weaken py seen false k (pair_of (note_pending py now j m)) (
        update-Kept py (not seen) k now (pending_item now j) m.task_executor m.status_manager
          h.kept);
    view =
        read-past_batch py k now (pending_item now j) m.task_executor m.status_manager st
          h.kept.coherent h.kept.valid (λ mine. h.kept.silent (ground arith)) h.view;
    same_timeout = h.same_timeout;
  }
  step-Known seen k timeout m (schedules now) st first h =
      let same = schedule-same now m in
      same_pair seen false k timeout m (schedule_scale_check now m) st same.0 same.1 h
  step-Known seen k timeout m (scales now cpu_usage) st first h =
      same_pair seen false k timeout m (delayed_scale_check now cpu_usage m) st refl refl h
  step-Known seen k timeout m (takes i task_time) st first h =
      same_pair seen false k timeout m (step py timeout_message m (takes i task_time)) st refl refl
        h
  step-Known seen k timeout m (begins now start_time j) st first h =
      let p = pair_of m in
      let t = m.task_timeout in
      record {
        kept =
            begin-Kept py timeout_message (not (seen || (j == k))) k now start_time j t p
              (λ q. ground arith) (weaken py seen (j == k) k p h.kept);
        view =
            read-Settles py (not seen) k p (begin_execute py timeout_message now start_time j t p)
              (update_item j running (some start_time) none none none ∷ []) st h.kept
              (begin-Settles py timeout_message now start_time j t p (settled_pair py p)
                (settled_pair-Settles py (not seen) k p h.kept))
              h.view;
        same_timeout = h.same_timeout;
      }
  step-Known seen k timeout m (finishes now start_time j outcome in_time) st first h =
      let p = pair_of m in
      let t = m.task_timeout in
      let p' = (finish_execute py timeout_message now start_time j t outcome in_time p).1 in
      record {
        kept =
            finish-Kept py timeout_message (not (seen || (j == k))) k now start_time j t outcome
              in_time p (λ q. ground arith) (weaken py seen (j == k) k p h.kept);
        view =
            subst
              (λ t.
                read_current py (settled_pair py p') k
                ≡ merge_all st (
                    select (concerns k) (
                      outcome_updates py timeout_message now start_time j
                        (seen_outcome py timeout_message j t outcome in_time))))
              h.same_timeout
              (read-Settles py (not seen) k p p'
                (outcome_updates py timeout_message now start_time j
                  (seen_outcome py timeout_message j t outcome in_time))
                st h.kept
                (finish-Settles py timeout_message now start_time j t outcome in_time p
                  (settled_pair py p) (settled_pair-Settles py (not seen) k p h.kept))
                h.view);
        same_timeout = h.same_timeout;
      }
  step-Known seen k timeout m (reads now j) st first h =
      let p = pair_of m in
      let f =
        flush_all-Flushed py now p (settled_pair py p)
          (settled_pair-Settles py (not seen) k p h.kept) in
      record {
        kept =
            weaken py seen false k (flush_all py now p)
              (flush_all-Kept py (not seen) k now p h.kept);
        view = ap (λ s. read_current py s k) f.settles.same ∙ h.view;
        same_timeout = h.same_timeout;
      }

  pub run-Known :
      (es : List (Event F R)) (seen : Bool) (k : String) (timeout : Option ℕ) (m : TaskManager F R)
      (st : TaskStatusDict R)
      → noted_first seen k es ≡ true
      → Known seen k timeout m st
      → (later : Bool) × Known later k timeout
          (run py timeout_message m es)
          (merge_all st (select (concerns k) (all_updates py timeout_message timeout es)))
  unfolding run
  run-Known [] seen k timeout m st first h = (seen, h)
  run-Known (e ∷ es) seen k timeout m st first h =
      let st' = merge_all st (select (concerns k) (updates_of py timeout_message timeout e)) in
      let r =
        run-Known es (seen || executes_task k e) k timeout (step py timeout_message m e) st'
          (ground arith) (step-Known seen k timeout m e st (ground arith) h) in
      (
        r.0,
        subst (Known r.0 k timeout (run py timeout_message (step py timeout_message m e) es))
            (sym (
              merge_all-append py (updates_of py timeout_message timeout e)
                (all_updates py timeout_message timeout es) k st))
            r.1,
      )
