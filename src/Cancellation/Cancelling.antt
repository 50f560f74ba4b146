-- ===== src/Cancellation/Cancelling.antt =====
-- What `cancel_task` does to the task, and what `is_task_cancelled` says of it.
use fish_async_task.Prelude.{
  ℕ, ◌≡◌, refl, ◌∙◌, ap, String, Bool, true, false, not, ◌&&◌, ◌||◌, none, some, List, arith,
  if◌then◌else◌, get_elem?, set, eqb, ◌==◌, eq_refl, get_elem?-set, get_elem?_in_range,
  Option-cases, inl, inr,
}
use fish_async_task.Prelude.Dict
use fish_async_task.Prelude.Dict.{Dict, lookup-delete, has-delete}
use fish_async_task.Cancellation.{
  CancellableTask, Joined, TaskCancellationManager, cancel, cancel_at, cleanup_task, cancel_ref,
  cancel_task, is_completed?, is_cancelled?, is_task_cancelled, has_ended, finish_execute, returned,
  raised,
}
use fish_async_task.Cancellation.Tracking.{IsTracked, cancel_task-IsTracked}

module _ {V E : Type 0} where
  -- What cancelling does to a task that has not completed.
  pub record Cancelled (joined : Joined V E) (m : TaskCancellationManager V E) (k : String)
      (ref : ℕ) (t : CancellableTask V E) (r : Bool × TaskCancellationManager V E) : Type 0 where
    pub answer : r.0 ≡ (not t.thread_alive || joined.stops)
    pub told : is_cancelled? (get_elem? r.1.objects ref) ≡ true
    pub others : (j : ℕ) → eqb ref j ≡ false → get_elem? r.1.objects j ≡ get_elem? m.objects j
    pub ended :
        is_completed? (get_elem? r.1.objects ref) ≡ (t.thread_alive && has_ended joined.ending)
    pub tracked :
        (j : String)
        → Dict.lookup j r.1.cancellable_tasks ≡ (
            if (k == j) && (r.0 || has_ended joined.ending)
            then none
            else Dict.lookup j m.cancellable_tasks)

  cancel_at_lem :
      (joined : Joined V E) (ref : ℕ) (objects : List (CancellableTask V E))
      (t : CancellableTask V E)
      → get_elem? objects ref ≡ some t
      → cancel_at joined ref objects ≡ ((cancel joined t).0, set objects ref (cancel joined t).1)
  unfolding cancel_at
  cancel_at_lem joined ref objects t found = rw found refl

  -- A task that has not completed: `cancel` sets its event, and it completes only if its function
  -- ends during the join.
  cancel_lem :
      (joined : Joined V E) (t : CancellableTask V E)
      → t.completed ≡ false
      → ((cancel joined t).0 ≡ (not t.thread_alive || joined.stops))
        × ((cancel joined t).1.cancelled ≡ true)
        × ((cancel joined t).1.completed ≡ (t.thread_alive && has_ended joined.ending))
  unfolding cancel finish_execute
  cancel_lem joined t h = elim (Option-cases joined.ending) [
    | inl open_ ↦ rw open_ (ground arith)
    | inr (returned v, e) ↦ rw e (ground arith)
    | inr (raised x, e) ↦ rw e (ground arith)
  ]

  get_elem?-set_same :
      (xs : List (CancellableTask V E)) (i : ℕ) (v w : CancellableTask V E)
      → get_elem? xs i ≡ some w
      → get_elem? (set xs i v) i ≡ some v
  get_elem?-set_same xs i v w h =
      get_elem?-set xs i i v ∙ ground (arith, get_elem?_in_range xs i w h)

  cancel_ref-Cancelled :
      (joined : Joined V E) (m : TaskCancellationManager V E) (k : String) (ref : ℕ)
      (t : CancellableTask V E)
      → get_elem? m.objects ref ≡ some t
      → t.completed ≡ false
      → Cancelled joined m k ref t (cancel_ref joined k ref m)
  unfolding cancel_ref cleanup_task
  cancel_ref-Cancelled joined m k ref t found open_ =
      let c = cancel_lem joined t open_ in
      let same = get_elem?-set_same m.objects ref (cancel joined t).1 t found in
      let done : is_completed? (get_elem? (set m.objects ref (cancel joined t).1) ref)
          ≡ (t.thread_alive && has_ended joined.ending) =
        ap is_completed? same ∙ c.2 in
      rw (cancel_at_lem joined ref m.objects t found) (record {
        answer = c.0;
        told = ground (arith, same);
        others = λ j d. ground (arith, get_elem?-set m.objects ref j (cancel joined t).1);
        ended = ground (arith, done);
        tracked = λ j. ground (arith, lookup-delete k j m.cancellable_tasks);
      })

  -- `cancel_task` of an id that is tracked and whose task has not completed: the task's event is
  -- set, also where the answer is False; the answer is True unless the thread of the task is alive
  -- and outlives the wait; the task has completed if its function ended during the wait; every
  -- other task is left alone; and the id is tracked no longer exactly if the answer is True or the
  -- function ended, whether or not the thread did, while all other ids are.
  pub cancel_task-Cancelled :
      (joined : Joined V E) (m : TaskCancellationManager V E) (k : String) (ref : ℕ)
      (t : CancellableTask V E)
      → Dict.lookup k m.cancellable_tasks ≡ some ref
      → get_elem? m.objects ref ≡ some t
      → t.completed ≡ false
      → Cancelled joined m k ref t (cancel_task joined m k)
  unfolding cancel_task
  cancel_task-Cancelled joined m k ref t there found open_ =
      rw (cancel_task, there) (cancel_ref-Cancelled joined m k ref t found open_)

  untracked :
      (m : TaskCancellationManager V E) (k : String)
      → IsTracked m
      → Dict.lookup k m.cancellable_tasks ≡ none
      → is_task_cancelled m k ≡ false
  unfolding is_task_cancelled
  untracked m k t gone =
      let no_token : Dict.lookup k m.cancel_tokens ≡ none = ap (Dict.lookup k) t.same ∙ gone in
      rw (is_task_cancelled, no_token) refl

  -- After a `cancel_task` that answered True for a task that had not completed,
  -- `is_task_cancelled` answers False for its id, although the event of the task is set.
  pub is_task_cancelled_forgets :
      (joined : Joined V E) (m : TaskCancellationManager V E) (k : String) (ref : ℕ)
      (t : CancellableTask V E)
      → IsTracked m
      → Dict.lookup k m.cancellable_tasks ≡ some ref
      → get_elem? m.objects ref ≡ some t
      → t.completed ≡ false
      → (cancel_task joined m k).0 ≡ true
      → (is_task_cancelled (cancel_task joined m k).1 k ≡ false)
        × (is_cancelled? (get_elem? (cancel_task joined m k).1.objects ref) ≡ true)
  is_task_cancelled_forgets joined m k ref t tracked there found open_ success =
      let c = cancel_task-Cancelled joined m k ref t there found open_ in
      (
        untracked (cancel_task joined m k).1 k (cancel_task-IsTracked joined m k tracked)
            (c.tracked k ∙ rw (eq_refl k, success) refl),
        c.told,
      )
