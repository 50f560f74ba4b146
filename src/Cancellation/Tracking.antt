-- ===== src/Cancellation/Tracking.antt =====
-- The two dicts of the cancellation manager, after any calls.
use fish_async_task.Prelude.{
  ℕ, suc, ◌≡◌, refl, ap, String, ◌||◌, List, [], ◌∷◌, if◌then◌else◌, length, get_elem?, Bool-cases,
  inl, inr, Option-cases,
}
use fish_async_task.Prelude.Dict
use fish_async_task.Prelude.Dict.{
  Dict, lookup-delete, lookup-insert, has-eq_lookup, has-delete, insert-HasUniqueKeys,
  delete-HasUniqueKeys,
}
use fish_async_task.Cancellation.{
  CancellableTask, Joined, TaskCancellationManager, new, cancel_at, register_task, cleanup_task,
  cancel_ref, cancel_task, cancel_each, cancel_all, is_completed?,
}

-- The tokens are those of the tasks, and each id stands once.
pub record IsTracked {V E : Type 0} (m : TaskCancellationManager V E) : Type 0 where
  pub same : m.cancel_tokens ≡ m.cancellable_tasks
  pub unique : Dict.HasUniqueKeys m.cancellable_tasks

-- The calls that change the manager.
pub data Call (V E : Type 0) : Type 0 where
  registers : String → Call V E
  cancels : Joined V E → String → Call V E
  cancels_all : (ℕ → Joined V E) → Call V E

module _ {V E : Type 0} where
  register_task-IsTracked :
      (m : TaskCancellationManager V E) (k : String) → IsTracked m → IsTracked (register_task m k).1
  unfolding register_task
  register_task-IsTracked m k t = record {
    same = ap (Dict.insert k (length m.objects)) t.same;
    unique = insert-HasUniqueKeys k (length m.objects) m.cancellable_tasks t.unique;
  }

  pub cleanup_task-IsTracked :
      (m : TaskCancellationManager V E) (k : String) (objects : List (CancellableTask V E))
      → IsTracked m
      → IsTracked (cleanup_task k (record m { objects = objects }))
  unfolding cleanup_task
  cleanup_task-IsTracked m k objects t = record {
    same = ap (Dict.delete k) t.same;
    unique = delete-HasUniqueKeys k m.cancellable_tasks t.unique;
  }

  unchanged-IsTracked :
      (m : TaskCancellationManager V E) (objects : List (CancellableTask V E))
      → IsTracked m
      → IsTracked (record m { objects = objects })
  unchanged-IsTracked m objects t = record { same = t.same; unique = t.unique }

  cancel_ref-IsTracked :
      (joined : Joined V E) (k : String) (ref : ℕ) (m : TaskCancellationManager V E)
      → IsTracked m
      → IsTracked (cancel_ref joined k ref m).1
  unfolding cancel_ref
  cancel_ref-IsTracked joined k ref m t =
      let r = cancel_at joined ref m.objects in
      elim (Bool-cases (r.0 || is_completed? (get_elem? r.1 ref))) [
        | inl over ↦ rw over (cleanup_task-IsTracked m k r.1 t)
        | inr on ↦ rw on (unchanged-IsTracked m r.1 t)
      ]

  pub cancel_task-IsTracked :
      (joined : Joined V E) (m : TaskCancellationManager V E) (k : String)
      → IsTracked m
      → IsTracked (cancel_task joined m k).1
  unfolding cancel_task
  cancel_task-IsTracked joined m k t = elim (Option-cases (Dict.lookup k m.cancellable_tasks)) [
    | inl missing ↦ rw (cancel_task, missing) t
    | inr (ref, found) ↦ rw (cancel_task, found) (cancel_ref-IsTracked joined k ref m t)
  ]

  cancel_each-IsTracked :
      (joins : ℕ → Joined V E) (items : Dict ℕ) (n : ℕ) (m : TaskCancellationManager V E)
      → IsTracked m
      → IsTracked (cancel_each joins items (n, m)).1
  unfolding cancel_each
  cancel_each-IsTracked joins [] n m t = t
  cancel_each-IsTracked joins ((k, ref) ∷ items) n m t =
      let r = cancel_at (joins ref) ref m.objects in
      cancel_each-IsTracked joins items (if r.0 then suc n else n)
        (cleanup_task k (record m { objects = r.1 })) (cleanup_task-IsTracked m k r.1 t)

  unfoldable pub step : TaskCancellationManager V E → Call V E → TaskCancellationManager V E
  step m (registers k) = (register_task m k).1
  step m (cancels joined k) = (cancel_task joined m k).1
  step m (cancels_all joins) = (cancel_all joins m).1

  unfoldable pub run : TaskCancellationManager V E → List (Call V E) → TaskCancellationManager V E
  run m [] = m
  run m (c ∷ cs) = run (step m c) cs

  run-from :
      (m : TaskCancellationManager V E) (cs : List (Call V E)) → IsTracked m → IsTracked (run m cs)
  unfolding run step cancel_all
  run-from m [] t = t
  run-from m (registers k ∷ cs) t =
      run-from (register_task m k).1 cs (register_task-IsTracked m k t)
  run-from m (cancels joined k ∷ cs) t =
      run-from (cancel_task joined m k).1 cs (cancel_task-IsTracked joined m k t)
  run-from m (cancels_all joins ∷ cs) t =
      run-from (cancel_all joins m).1 cs (cancel_each-IsTracked joins m.cancellable_tasks 0 m t)

  -- Whatever calls were made on a new manager, its dict of tokens is its dict of tasks, and no id
  -- stands twice in it.
  pub run-IsTracked : (cs : List (Call V E)) → IsTracked (run (new {V = V} {E = E}) cs)
  unfolding new
  run-IsTracked cs = run-from new cs (record { same = refl; unique = tt })
