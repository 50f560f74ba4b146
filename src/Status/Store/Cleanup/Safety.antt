-- ===== src/Status/Store/Cleanup/Safety.antt =====
-- Which statuses `cleanup_expired` removes.
use fish_async_task.Prelude.{
  ℕ, zero, suc, ◌≡◌, refl, String, true, Option, none, some, List, [], ◌∷◌, arith, length, ltb,
  eq_iff, inl, inr, ◌⊎◌, Bool-cases, get_elem?,
}
use fish_async_task.Prelude.Dict
use fish_async_task.Prelude.Dict.{Dict, lookup-delete, lookup_ext}
use fish_async_task.Status.{TaskStatusDict}
use fish_async_task.Status.Store.{Store, Runtime, Expiry, shard_index, get_status, or_empty}
use fish_async_task.Status.Store.Cleanup.{
  Sweep, spent, overdue?, drop_task, then_drop, due, sweep, sweep_shard, sweep_all, cleanup_expired,
}

module _ {R : Type 0} (now ttl : ℕ) where
  -- A status was left as it was, or it was overdue and is gone.
  abbrev pub KeptOrOverdue : Option (TaskStatusDict R) → Option (TaskStatusDict R) → Type 0
  KeptOrOverdue old new = (new ≡ old) ⊎ ((new ≡ none) × (overdue? now ttl old ≡ true))

  KeptOrOverdue-trans :
      (a b c : Option (TaskStatusDict R))
      → KeptOrOverdue a b
      → KeptOrOverdue b c
      → KeptOrOverdue a c
  KeptOrOverdue-trans a b c h k = ground arith

  drop_task-safe :
      (k j : String) (w : Sweep R)
      → KeptOrOverdue (Dict.lookup j w.tasks) (Dict.lookup j (drop_task now ttl k w).tasks)
  unfolding drop_task
  drop_task-safe k j w = elim (Bool-cases (overdue? now ttl (Dict.lookup k w.tasks))) [
    | inl late ↦ ground (arith, lookup-delete k j w.tasks, eq_iff k j, lookup_ext k j w.tasks)
    | inr in_time ↦ rw in_time (inl refl)
  ]

module _ {R : Type 0} (py : Runtime) (now ttl : ℕ) where
  then_drop-safe :
      (j : String) (again : Sweep R → Sweep R) (w : Sweep R) (o : Option (Expiry × List Expiry))
      → ((w' : Sweep R)
          → KeptOrOverdue now ttl (Dict.lookup j w'.tasks) (Dict.lookup j (again w').tasks))
      → KeptOrOverdue now ttl
          (Dict.lookup j w.tasks)
          (Dict.lookup j (then_drop py now ttl again w o).tasks)
  unfolding then_drop
  then_drop-safe j again w none ih = inl refl
  then_drop-safe j again w (some (e, rest)) ih =
      let w' : Sweep R = record w { heap = rest } in
      KeptOrOverdue-trans now ttl (Dict.lookup j w.tasks) _ _
        (drop_task-safe now ttl e.task_id j w') (ih (drop_task now ttl e.task_id w'))

  due-safe :
      (j : String) (again : Sweep R → Sweep R) (w : Sweep R) (h : List Expiry)
      → ((w' : Sweep R)
          → KeptOrOverdue now ttl (Dict.lookup j w'.tasks) (Dict.lookup j (again w').tasks))
      → KeptOrOverdue now ttl
          (Dict.lookup j w.tasks)
          (Dict.lookup j (due py now ttl again w h).tasks)
  unfolding due
  due-safe j again w [] ih = inl refl
  due-safe j again w (e ∷ rest) ih = elim (Bool-cases (ltb now e.time)) [
    | inl ahead ↦ rw ahead (inl refl)
    | inr past ↦ rw past (then_drop-safe j again w (py.heapq.heappop (e ∷ rest)) ih)
  ]

  sweep-safe :
      (j : String) (fuel : ℕ) (w : Sweep R)
      → KeptOrOverdue now ttl
          (Dict.lookup j w.tasks)
          (Dict.lookup j (sweep py now ttl fuel w).tasks)
  unfolding sweep
  sweep-safe j zero w = inl refl
  sweep-safe j (suc fuel) w = elim (Bool-cases (spent w.remaining)) [
    | inl no_more ↦ rw no_more (inl refl)
    | inr more ↦ rw more (due-safe j (sweep py now ttl fuel) w w.heap (λ w'. sweep-safe j fuel w'))
  ]

  sweep_all-safe :
      (j : String) (count : ℕ) (remaining : Option ℕ) (ds : List (Dict (TaskStatusDict R)))
      (hs : List (List Expiry)) (i : ℕ)
      → KeptOrOverdue now ttl (Dict.lookup j (or_empty (get_elem? ds i))) (
          Dict.lookup j
            (or_empty (get_elem? (sweep_all py now ttl count remaining ds hs).shards i)))
  unfolding sweep_all sweep_shard
  sweep_all-safe j count remaining [] hs i = inl refl
  sweep_all-safe j count remaining (d ∷ ds) [] i = inl refl
  sweep_all-safe j count remaining (d ∷ ds) (h ∷ hs) zero = elim (Bool-cases (spent remaining)) [
    | inl no_more ↦ rw no_more (inl refl)
    | inr more ↦ rw more (
        sweep-safe j (length h)
          (record { tasks = d; heap = h; cleaned_count = count; remaining = remaining }))
  ]
  sweep_all-safe j count remaining (d ∷ ds) (h ∷ hs) (suc i) =
      let w =
        sweep py now ttl (length h)
          (record { tasks = d; heap = h; cleaned_count = count; remaining = remaining }) in
      elim (Bool-cases (spent remaining)) [
        | inl no_more ↦ rw no_more (inl refl)
        | inr more ↦ rw more (sweep_all-safe j w.cleaned_count w.remaining ds hs i)
      ]

-- However `cleanup_expired` is limited, a task reads after it as before, unless it had an end time
-- that lies more than the ttl back, and then it may be gone.
pub cleanup_expired-safe :
    {R : Type 0} (py : Runtime) (now : ℕ) (s : Store R) (max_cleanup : Option ℕ) (k : String)
    → KeptOrOverdue now s.ttl
        (get_status py s k)
        (get_status py (cleanup_expired py now s max_cleanup).1 k)
unfolding cleanup_expired get_status
cleanup_expired-safe py now s max_cleanup k =
    sweep_all-safe py now s.ttl k 0 max_cleanup s.shards s.expiry_heaps
      (shard_index py.hash s.shard_count k)
