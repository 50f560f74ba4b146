-- ===== src/Cancellation/Everything.antt =====
-- `cancel_all`.
use fish_async_task.Prelude.{
  ℕ, suc, ◌≡◌, refl, ◌∙◌, ap, subst, String, Bool, true, ◌||◌, Option, none, some, List, [], ◌∷◌,
  arith, if◌then◌else◌, length, get_elem?, eqb, ◌==◌, eq_refl, Bool-cases, inl, inr, get_elem?-set,
  get_elem?_in_range, Option-cases,
}
use fish_async_task.Prelude.Dict
use fish_async_task.Prelude.Dict.{Dict, lookup-delete, has-eq_lookup}
use fish_async_task.Cancellation.{
  CancellableTask, Joined, TaskCancellationManager, cancel, cancel_at, cleanup_task, cancel_each,
  cancel_all, get_active_count, finish_execute, returned, raised,
}

nothing_found : (d : Dict ℕ) → ((k : String) → Dict.lookup k d ≡ none) → length d ≡ 0
unfolding Dict.lookup
nothing_found [] h = refl
nothing_found ((k, v) ∷ d) h = ground (arith, h k, eq_refl k)

module _ {V E : Type 0} where
  -- The task, if there is one, was told to stop or has completed.
  abbrev pub settled : Option (CancellableTask V E) → Bool
  settled none = true
  settled (some t) = t.cancelled || t.completed

  settled-cancel :
      (joined : Joined V E) (t : CancellableTask V E) → settled (some (cancel joined t).1) ≡ true
  unfolding cancel finish_execute
  settled-cancel joined t = elim (Option-cases joined.ending) [
    | inl open_ ↦ rw open_ (ground arith)
    | inr (returned v, e) ↦ rw e (ground arith)
    | inr (raised x, e) ↦ rw e (ground arith)
  ]

  settled-cancel_at :
      (joined : Joined V E) (ref : ℕ) (objects : List (CancellableTask V E)) (j : ℕ)
      → (eqb ref j || settled (get_elem? objects j)) ≡ true
      → settled (get_elem? (cancel_at joined ref objects).1 j) ≡ true
  unfolding cancel_at
  settled-cancel_at joined ref objects j h = elim (Option-cases (get_elem? objects ref)) [
    | inl dangling ↦ rw dangling (found_nothing objects ref j dangling h)
    | inr (t, found) ↦ rw found (
        ap settled (get_elem?-set objects ref j (cancel joined t).1)
        ∙ ground (arith, settled-cancel joined t, get_elem?_in_range objects ref t found))
  ]
    where
      found_nothing :
          (objects : List (CancellableTask V E)) (ref j : ℕ)
          → get_elem? objects ref ≡ none
          → (eqb ref j || settled (get_elem? objects j)) ≡ true
          → settled (get_elem? objects j) ≡ true
      found_nothing objects ref j dangling h = elim (Bool-cases (eqb ref j)) [
        | inl same ↦
            let e : ref ≡ j = ground arith in
            subst (λ i. settled (get_elem? objects i) ≡ true) e (rw dangling refl)
        | inr other ↦ ground arith
      ]

  settled-cancel_each :
      (joins : ℕ → Joined V E) (items : Dict ℕ) (n : ℕ) (m : TaskCancellationManager V E) (j : ℕ)
      → settled (get_elem? m.objects j) ≡ true
      → settled (get_elem? (cancel_each joins items (n, m)).1.objects j) ≡ true
  unfolding cancel_each cleanup_task
  settled-cancel_each joins [] n m j h = h
  settled-cancel_each joins ((k, ref) ∷ items) n m j h =
      let r = cancel_at (joins ref) ref m.objects in
      settled-cancel_each joins items (if r.0 then suc n else n)
        (cleanup_task k (record m { objects = r.1 })) j
        (settled-cancel_at (joins ref) ref m.objects j (ground arith))

  cancel_each-settles :
      (joins : ℕ → Joined V E) (items : Dict ℕ) (n : ℕ) (m : TaskCancellationManager V E)
      (k : String) (ref : ℕ)
      → Dict.lookup k items ≡ some ref
      → settled (get_elem? (cancel_each joins items (n, m)).1.objects ref) ≡ true
  unfolding cancel_each cleanup_task Dict.lookup
  cancel_each-settles joins [] n m k ref h = ground arith
  cancel_each-settles joins ((i, r0) ∷ items) n m k ref h =
      let r = cancel_at (joins r0) r0 m.objects in
      let m' = cleanup_task i (record m { objects = r.1 }) in
      elim (Bool-cases (i == k)) [
        | inl mine ↦
            settled-cancel_each joins items (if r.0 then suc n else n) m' ref
              (settled-cancel_at (joins r0) r0 m.objects ref (ground arith))
        | inr other ↦
            cancel_each-settles joins items (if r.0 then suc n else n) m' k ref (ground arith)
      ]

  lookup-cancel_each :
      (joins : ℕ → Joined V E) (items : Dict ℕ) (n : ℕ) (m : TaskCancellationManager V E)
      (k : String)
      → Dict.lookup k (cancel_each joins items (n, m)).1.cancellable_tasks
        ≡ (if Dict.has k items then none else Dict.lookup k m.cancellable_tasks)
  unfolding cancel_each cleanup_task Dict.has
  lookup-cancel_each joins [] n m k = refl
  lookup-cancel_each joins ((i, ref) ∷ items) n m k =
      let r = cancel_at (joins ref) ref m.objects in
      lookup-cancel_each joins items (if r.0 then suc n else n)
        (cleanup_task i (record m { objects = r.1 })) k
      ∙ ground (arith, lookup-delete i k m.cancellable_tasks)

  -- After `cancel_all` no task is tracked, and every task that was tracked has been told to stop
  -- or has completed.
  pub cancel_all-settles :
      (joins : ℕ → Joined V E) (m : TaskCancellationManager V E)
      → (get_active_count (cancel_all joins m).1 ≡ 0)
        × ((k : String) (ref : ℕ)
            → Dict.lookup k m.cancellable_tasks ≡ some ref
            → settled (get_elem? (cancel_all joins m).1.objects ref) ≡ true)
  unfolding cancel_all get_active_count
  cancel_all-settles joins m = (
    nothing_found (cancel_each joins m.cancellable_tasks (0, m)).1.cancellable_tasks (λ k.
        lookup-cancel_each joins m.cancellable_tasks 0 m k
        ∙ ground (arith, has-eq_lookup k m.cancellable_tasks)),
    λ k ref h. cancel_each-settles joins m.cancellable_tasks 0 m k ref h,
  )
