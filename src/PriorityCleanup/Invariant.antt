-- ===== src/PriorityCleanup/Invariant.antt =====
-- What the operations keep of the heap.
use fish_async_task.Prelude.{
  ℕ, ◌+◌, ◌≡◌, refl, ◌∙◌, String, ◌==◌, eq_iff, true, false, not, Option, none, some, List, [], ◌∷◌,
  arith, Perm, if◌then◌else◌, select, any, any-perm, Bool-cases, inl, inr,
}
use fish_async_task.Prelude.Dict
use fish_async_task.Prelude.Dict.{
  Dict, lookup-delete, lookup-insert, length-delete, delete-HasUniqueKeys, insert-HasUniqueKeys,
  has-delete,
}
use fish_async_task.Prelude.StringSet.{contains, contains_ext}
use fish_async_task.Status.{TaskStatusDict}
use fish_async_task.Status.Store.{Runtime, Expiry}
use fish_async_task.PriorityCleanup.{TaskStatusWithExpiry, get_task, add_task}
use fish_async_task.PriorityCleanup.Expiring.{is_entry, noted, noted_alike}

module _ {R : Type 0} (py : Runtime) where
  open py use {heapq.{IsHeap, heappush-IsHeap, heappush-perm, heapify-IsHeap, heapify-perm}}

  -- The heap is in order and has an entry for each task with an end time, and no key comes twice.
  pub record IsValid (s : TaskStatusWithExpiry R) : Type 0 where
    pub heap : IsHeap s.expiry_heap
    pub entries : (k : String) → noted s.ttl k (get_task s k) s.expiry_heap ≡ true
    pub unique : Dict.HasUniqueKeys s.status_dict

  pub noted-perm :
      (ttl : ℕ) (k : String) (o : Option (TaskStatusDict R)) (xs ys : List Expiry)
      → Perm xs ys
      → noted ttl k o xs ≡ noted ttl k o ys
  noted-perm ttl k o xs ys p = noted_alike ttl k o xs ys (λ t. any-perm (is_entry ttl k t) xs ys p)

  noted_behind :
      (ttl : ℕ) (k : String) (o : Option (TaskStatusDict R)) (e : Expiry) (xs : List Expiry)
      → noted ttl k o xs ≡ true
      → noted ttl k o (e ∷ xs) ≡ true
  noted_behind ttl k none e xs h = refl
  noted_behind ttl k (some st) e xs h = ground arith

  pushed-noted :
      (ttl : ℕ) (k j : String) (t : ℕ) (st : TaskStatusDict R) (d : Dict (TaskStatusDict R))
      (heap : List Expiry)
      → st.end_time ≡ some t
      → noted ttl j (Dict.lookup j d) heap ≡ true
      → noted ttl j
          (Dict.lookup j (Dict.insert k st d))
          (record { time = t + ttl; task_id = k } ∷ heap)
        ≡ true
  pushed-noted ttl k j t st d heap e h = elim (Bool-cases (k == j)) [
    | inl this ↦ rw (lookup-insert k j st d, this, e) (ground arith)
    | inr other ↦ rw (lookup-insert k j st d, other) (noted_behind ttl j (Dict.lookup j d) _ heap h)
  ]

  unpushed-noted :
      (ttl : ℕ) (k j : String) (st : TaskStatusDict R) (d : Dict (TaskStatusDict R))
      (heap : List Expiry)
      → st.end_time ≡ none
      → noted ttl j (Dict.lookup j d) heap ≡ true
      → noted ttl j (Dict.lookup j (Dict.insert k st d)) heap ≡ true
  unpushed-noted ttl k j st d heap e h = elim (Bool-cases (k == j)) [
    | inl this ↦ rw (lookup-insert k j st d, this, e) refl
    | inr other ↦ rw (lookup-insert k j st d, other) h
  ]

  inserted-IsValid :
      (k : String) (st : TaskStatusDict R) (s : TaskStatusWithExpiry R) (end_time : Option ℕ)
      → st.end_time ≡ end_time
      → IsValid s
      → IsValid (record s {
        status_dict = Dict.insert k st s.status_dict;
        expiry_heap = elim end_time [
          | none ↦ s.expiry_heap
          | some t ↦ py.heapq.heappush (record { time = t + s.ttl; task_id = k }) s.expiry_heap
        ];
      })
  unfolding get_task
  inserted-IsValid k st s none e v = record {
    heap = v.heap;
    entries = λ j. unpushed-noted s.ttl k j st s.status_dict s.expiry_heap e (v.entries j);
    unique = insert-HasUniqueKeys k st s.status_dict v.unique;
  }
  inserted-IsValid k st s (some t) e v = record {
    heap = heappush-IsHeap _ s.expiry_heap v.heap;
    entries = λ j.
        noted-perm s.ttl j (Dict.lookup j (Dict.insert k st s.status_dict)) _ _
          (heappush-perm (record { time = t + s.ttl; task_id = k }) s.expiry_heap)
        ∙ pushed-noted s.ttl k j t st s.status_dict s.expiry_heap e (v.entries j);
    unique = insert-HasUniqueKeys k st s.status_dict v.unique;
  }

  -- `add_task` keeps the heap in order, with an entry for each task that has an end time, and the
  -- keys distinct.
  pub add_task-IsValid :
      (k : String) (st : TaskStatusDict R) (s : TaskStatusWithExpiry R)
      → IsValid s
      → IsValid (add_task py k st s)
  unfolding add_task
  add_task-IsValid k st s v = inserted-IsValid k st s st.end_time refl v

entry-kept :
    (ids : List String) (ttl t : ℕ) (k : String) (heap : List Expiry)
    → contains k ids ≡ false
    → any (is_entry ttl k t) (select (λ e. not (contains e.task_id ids)) heap)
      ≡ any (is_entry ttl k t) heap
entry-kept ids ttl t k [] h = refl
entry-kept ids ttl t k (e ∷ heap) h =
    ground (arith, entry-kept ids ttl t k heap h, eq_iff e.task_id k, contains_ext e.task_id k ids)

noted-select :
    {R : Type 0} (ids : List String) (ttl : ℕ) (k : String) (o : Option (TaskStatusDict R))
    (heap : List Expiry)
    → contains k ids ≡ false
    → noted ttl k o (select (λ e. not (contains e.task_id ids)) heap) ≡ noted ttl k o heap
noted-select ids ttl k o heap h =
    noted_alike ttl k o (select (λ e. not (contains e.task_id ids)) heap) heap
      (λ t. entry-kept ids ttl t k heap h)

-- A heap without the entries of the tasks that are gone.
pub noted-kept :
    {R : Type 0} (ids : List String) (ttl : ℕ) (k : String) (o : Option (TaskStatusDict R))
    (heap : List Expiry)
    → noted ttl k o heap ≡ true
    → noted ttl k
        (if contains k ids then none else o)
        (select (λ e. not (contains e.task_id ids)) heap)
      ≡ true
noted-kept ids ttl k o heap h = elim (Bool-cases (contains k ids)) [
  | inl removed ↦ rw removed refl
  | inr stays ↦ rw stays (noted-select ids ttl k o heap stays ∙ h)
]
