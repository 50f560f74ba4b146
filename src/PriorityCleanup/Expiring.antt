-- ===== src/PriorityCleanup/Expiring.antt =====
-- `cleanup_expired`: the heap against a look at every task.
use fish_async_task.Prelude.{
  ℕ, zero, suc, ◌-◌, ◌≤◌, ◌≡◌, refl, ◌∙◌, sym, ap, subst, String, ◌==◌, eq_iff, Bool, true, false,
  not, ◌&&◌, ◌||◌, Option, none, some, List, [], ◌∷◌, arith, if◌then◌else◌, length, length-perm,
  ltb, eqb, all, any, any-perm, Perm, Bool-cases, inl, inr,
}
use fish_async_task.Prelude.Dict
use fish_async_task.Prelude.Dict.{
  lookup_ext, Dict, lookup-delete, length-delete, delete-HasUniqueKeys, has-eq_lookup,
}
use fish_async_task.Status.{TaskStatusDict}
use fish_async_task.Status.Store.{Runtime, Expiry, expires_before}
use fish_async_task.PriorityCleanup.{
  TaskStatusWithExpiry, compute_expiry_time, expired?, get_task, drop_task, then_drop, due, sweep,
  cleanup_expired,
}

-- The entry of the task `k` that ended at `t`.
abbrev pub is_entry : (ttl : ℕ) → String → ℕ → Expiry → Bool
is_entry ttl k t e = eqb e.time (compute_expiry_time t ttl) && (e.task_id == k)

-- What is stored for `k` has its entry in the heap, if it has an end time.
abbrev pub noted :
    {R : Type 0} → (ttl : ℕ) → String → Option (TaskStatusDict R) → List Expiry → Bool
noted ttl k none heap = true
noted ttl k (some st) heap = elim st.end_time [ none ↦ true | some t ↦ any (is_entry ttl k t) heap ]

-- It depends on the heap only by the entries of `k`.
pub noted_alike :
    {R : Type 0} (ttl : ℕ) (k : String) (o : Option (TaskStatusDict R)) (xs ys : List Expiry)
    → ((t : ℕ) → any (is_entry ttl k t) xs ≡ any (is_entry ttl k t) ys)
    → noted ttl k o xs ≡ noted ttl k o ys
noted_alike ttl k none xs ys h = refl
noted_alike ttl k (some st) xs ys h =
    elim st.end_time
      as (λ o.
        (elim o [ none ↦ true | some t ↦ any (is_entry ttl k t) xs ])
        ≡ (elim o [ none ↦ true | some t ↦ any (is_entry ttl k t) ys ])) [
          | none ↦ refl
          | some t ↦ h t
        ]

none_due :
    (py : Runtime) (now ttl t : ℕ) (k : String) (e : Expiry) (rest : List Expiry)
    → ltb now e.time ≡ true
    → all (λ b. not (expires_before py.id_lt b e)) rest ≡ true
    → any (is_entry ttl k t) rest ≡ true
    → ltb ttl (now - t) ≡ false
none_due py now ttl t k e [] ahead h a = cc
none_due py now ttl t k e (b ∷ rest) ahead h a =
    ground (arith, none_due py now ttl t k e rest ahead)

-- What a look at every task would leave.
abbrev pub left :
    {R : Type 0} → (now ttl : ℕ) → Option (TaskStatusDict R) → Option (TaskStatusDict R)
left now ttl o = if expired? now ttl o then none else o

module _ {R : Type 0} (py : Runtime) (now : ℕ) where
  open py use {heapq.{IsHeap, heappop, heappop-cons, head_least}}

  left_ahead :
      (ttl : ℕ) (k : String) (o : Option (TaskStatusDict R)) (e : Expiry) (rest : List Expiry)
      → ltb now e.time ≡ true
      → IsHeap (e ∷ rest)
      → noted ttl k o (e ∷ rest) ≡ true
      → left now ttl o ≡ o
  left_ahead ttl k none e rest ahead i n = refl
  left_ahead ttl k (some st) e rest ahead i n =
      elim st.end_time
          as (λ o.
            (elim o [ none ↦ true | some t ↦ any (is_entry ttl k t) (e ∷ rest) ] ≡ true)
            → (if elim o [ none ↦ false | some t ↦ ltb ttl (now - t) ] then none else some st)
              ≡ some st) [
                | none ↦ λ _. refl
                | some t ↦
                    λ m. ground (arith, none_due py now ttl t k e rest ahead (head_least e rest i))
              ]
        n

  -- An expired status has its entry in the heap.
  abbrev pub followed : (ttl : ℕ) → String → Option (TaskStatusDict R) → List Expiry → Bool
  followed ttl k o heap = not (expired? now ttl o) || noted ttl k o heap

  followed_ahead :
      (ttl : ℕ) (k : String) (o : Option (TaskStatusDict R)) (e : Expiry) (rest : List Expiry)
      → ltb now e.time ≡ true
      → IsHeap (e ∷ rest)
      → followed ttl k o (e ∷ rest) ≡ true
      → left now ttl o ≡ o
  followed_ahead ttl k o e rest ahead i f = elim (Bool-cases (expired? now ttl o)) [
    | inl late ↦ left_ahead ttl k o e rest ahead i (ground arith)
    | inr in_time ↦ rw in_time refl
  ]

  followed_nil :
      (ttl : ℕ) (k : String) (o : Option (TaskStatusDict R))
      → followed ttl k o [] ≡ true
      → left now ttl o ≡ o
  followed_nil ttl k none f = refl
  followed_nil ttl k (some st) f = ground arith

  noted_behind :
      (ttl : ℕ) (k : String) (o : Option (TaskStatusDict R)) (e : Expiry) (rest r : List Expiry)
      → (e.task_id == k) ≡ false
      → Perm rest r
      → noted ttl k o (e ∷ rest) ≡ noted ttl k o r
  noted_behind ttl k o e rest r other p =
      noted_alike ttl k o (e ∷ rest) r (λ t. ground (arith, any-perm (is_entry ttl k t) rest r p))

  followed_behind :
      (ttl : ℕ) (k : String) (o : Option (TaskStatusDict R)) (e : Expiry) (rest r : List Expiry)
      → (e.task_id == k) ≡ false
      → Perm rest r
      → followed ttl k o (e ∷ rest) ≡ true
      → followed ttl k o r ≡ true
  followed_behind ttl k o e rest r other p f =
      sym (ap (λ b. not (expired? now ttl o) || b) (noted_behind ttl k o e rest r other p)) ∙ f

  -- The part of a round behind `heappop`, for the task `j`.
  record Kept (j : String) (heap : List Expiry) (s s' : TaskStatusWithExpiry R) : Type 0 where
    same_ttl : s'.ttl ≡ s.ttl
    same_heap : s'.expiry_heap ≡ heap
    same_left : left now s.ttl (get_task s' j) ≡ left now s.ttl (get_task s j)
    still_followed : followed s.ttl j (get_task s' j) heap ≡ true

  drop_task-Kept :
      (e : Expiry) (j : String) (n : ℕ) (rest r : List Expiry) (s : TaskStatusWithExpiry R)
      → Perm rest r
      → followed s.ttl j (get_task s j) (e ∷ rest) ≡ true
      → Kept j r s (drop_task now e.task_id (n, record s { expiry_heap = r })).1
  unfolding drop_task get_task
  drop_task-Kept e j n rest r s p f =
      elim (Bool-cases (expired? now s.ttl (Dict.lookup e.task_id s.status_dict))) [
        | inl late ↦ rw late (record {
          same_ttl = refl;
          same_heap = refl;
          same_left = ground (
            arith,
            lookup-delete e.task_id j s.status_dict,
            lookup_ext e.task_id j s.status_dict,
            eq_iff e.task_id j,
          );
          still_followed = elim (Bool-cases (e.task_id == j)) [
            | inl this ↦ rw (lookup-delete e.task_id j s.status_dict, this) refl
            | inr other ↦
                rw (lookup-delete e.task_id j s.status_dict, other)
                  (followed_behind s.ttl j (Dict.lookup j s.status_dict) e rest r other p f)
          ];
        })
        | inr in_time ↦ rw in_time (record {
          same_ttl = refl;
          same_heap = refl;
          same_left = refl;
          still_followed = elim (Bool-cases (e.task_id == j)) [
            | inl this ↦ ground (arith, lookup_ext e.task_id j s.status_dict, eq_iff e.task_id j)
            | inr other ↦ followed_behind s.ttl j (Dict.lookup j s.status_dict) e rest r other p f
          ];
        })
      ]

  due-left :
      (j : String) (fuel n : ℕ) (s : TaskStatusWithExpiry R) (heap : List Expiry)
      → length heap ≤ suc fuel
      → IsHeap heap
      → followed s.ttl j (get_task s j) heap ≡ true
      → ((n' : ℕ) (s' : TaskStatusWithExpiry R)
          → s'.ttl ≡ s.ttl
          → length s'.expiry_heap ≤ fuel
          → IsHeap s'.expiry_heap
          → followed s.ttl j (get_task s' j) s'.expiry_heap ≡ true
          → get_task (sweep py now none fuel (n', s')).1 j ≡ left now s.ttl (get_task s' j))
      → get_task (due py now (sweep py now none fuel) (n, s) heap).1 j
        ≡ left now s.ttl (get_task s j)
  unfolding due then_drop
  due-left j fuel n s [] c i f ih = sym (followed_nil s.ttl j (get_task s j) f)
  due-left j fuel n s (e ∷ rest) c i f ih = elim (Bool-cases (ltb now e.time)) [
    | inl ahead ↦ rw ahead (sym (followed_ahead s.ttl j (get_task s j) e rest ahead i f))
    | inr past ↦
        let (r, popped, p, i') = heappop-cons e rest i in
        let kept = drop_task-Kept e j n rest r s p f in
        rw (past, popped)
          (ih (drop_task now e.task_id (n, record s { expiry_heap = r })).0
              (drop_task now e.task_id (n, record s { expiry_heap = r })).1 kept.same_ttl
              (omega (arith, length-perm rest r p, ap length kept.same_heap))
              (subst IsHeap (sym kept.same_heap) i')
              (subst
                (λ hp.
                  followed s.ttl j
                    (get_task (drop_task now e.task_id (n, record s { expiry_heap = r })).1 j) hp
                  ≡ true)
                (sym kept.same_heap) kept.still_followed)
            ∙ kept.same_left)
  ]

  sweep-left :
      (j : String) (fuel n : ℕ) (s : TaskStatusWithExpiry R)
      → length s.expiry_heap ≤ fuel
      → IsHeap s.expiry_heap
      → followed s.ttl j (get_task s j) s.expiry_heap ≡ true
      → get_task (sweep py now none fuel (n, s)).1 j ≡ left now s.ttl (get_task s j)
  unfolding sweep
  sweep-left j zero n s c i f = sym (
      followed_nil s.ttl j (get_task s j)
        (subst (λ hp. followed s.ttl j (get_task s j) hp ≡ true) (empty s.expiry_heap c) f))
    where
      empty : (h : List Expiry) → length h ≤ 0 → h ≡ []
      empty [] c = refl
      empty (e ∷ h) c = absurd (omega arith)
  sweep-left j (suc fuel) n s c i f =
      due-left j fuel n s s.expiry_heap c i f (λ n' s' same c' i' f'.
        sweep-left j fuel n' s' c' i'
          (ap (λ t. followed t j (get_task s' j) s'.expiry_heap) same ∙ f')
        ∙ ap (λ t. left now t (get_task s' j)) same)

-- Without a limit, `cleanup_expired` removes a task exactly when a look at it would find its end
-- time more than the ttl back, and leaves it as it is else. The heap is in order, and holds the
-- entry of the task if this has an end time.
pub cleanup_expired-left :
    {R : Type 0} (py : Runtime) (now : ℕ) (s : TaskStatusWithExpiry R) (k : String)
    → py.heapq.IsHeap s.expiry_heap
    → noted s.ttl k (get_task s k) s.expiry_heap ≡ true
    → get_task (cleanup_expired py now none s).1 k ≡ left now s.ttl (get_task s k)
unfolding cleanup_expired
cleanup_expired-left py now s k i f =
    sweep-left py now k (length s.expiry_heap) 0 s (omega arith) i (ground arith)
