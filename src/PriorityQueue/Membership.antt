-- ===== src/PriorityQueue/Membership.antt =====
-- The set of ids beside the heap: what `contains` and `remove` say of the queue.
use mathlib.Core.List.Perm
use fish_async_task.Prelude.{
  ℕ, ◌≡◌, ◌⊎◌, inl, inr, refl, ◌∙◌, String, Bool, true, false, List, [], ◌∷◌, Perm, arith, any,
  any-perm, Bool-cases, ◌==◌, eq_iff,
}
use fish_async_task.Prelude.Heapq.{Heapq}
use fish_async_task.Prelude.StringSet
use fish_async_task.Prelude.StringSet.{contains-add, contains-discard}
use fish_async_task.PriorityQueue.{
  PrioritizedTask, before, has_id, PriorityTaskQueue, erase_id, enqueue, put, remove, new,
}
use fish_async_task.PriorityQueue.Order.{Dequeued}

module _ {W : Type 0} where
  -- An id that `contains` reports is that of a task in the heap.
  abbrev pub IdsAreQueued : PriorityTaskQueue W → Type 0
  IdsAreQueued q =
      (k : String) → StringSet.contains k q.task_ids ≡ true → any (has_id k) q.queue ≡ true

  pub erase_id-perm :
      (k : String) (ts : List (PrioritizedTask W))
      → any (has_id k) ts ≡ true
      → (t : PrioritizedTask W) × (t.task_id ≡ k) × Perm ts (t ∷ erase_id k ts)
  unfolding erase_id
  erase_id-perm k [] h = absurd (ground arith)
  erase_id-perm k (t ∷ ts) h = elim (Bool-cases (has_id k t)) [
    | inl hit ↦ (t, (eq_iff t.task_id k).0 hit, rw hit Perm.rfl)
    | inr miss ↦
        let (u, e, p) = erase_id-perm k ts (ground arith) in
        (u, e, rw miss (Perm.trans (Perm.cons t p) (Perm.swap u t (erase_id k ts))))
  ]

  pub any-erase_id :
      (k j : String) (ts : List (PrioritizedTask W))
      → (k == j) ≡ false
      → any (has_id j) (erase_id k ts) ≡ any (has_id j) ts
  unfolding erase_id
  any-erase_id k j [] h = refl
  any-erase_id k j (t ∷ ts) h =
      ground (arith, any-erase_id k j ts h, eq_iff t.task_id k, eq_iff t.task_id j, eq_iff k j)

module _ {W : Type 0} (hq : Heapq (before {W = W})) where
  open hq use {
    IsHeap, heappush, heappush-IsHeap, heappush-perm, heapify, heapify-IsHeap, heapify-perm,
  }

  -- What every method keeps.
  pub record IsValid (q : PriorityTaskQueue W) : Type 0 where
    pub heap : IsHeap q.queue
    pub ids : IdsAreQueued q

  pub new-IsValid : (maxsize : ℕ) → IsValid (new maxsize)
  unfolding new StringSet.contains
  new-IsValid maxsize = record { heap = hq.nil-IsHeap; ids = λ k h. ground arith }

  pub enqueue-IsValid :
      (q : PriorityTaskQueue W) (t : PrioritizedTask W) → IsValid q → IsValid (enqueue hq q t)
  unfolding enqueue
  enqueue-IsValid q t v = record {
    heap = heappush-IsHeap t q.queue v.heap;
    ids = λ k h.
        any-perm (has_id k) (heappush t q.queue) (t ∷ q.queue) (heappush-perm t q.queue)
        ∙ ground (arith, contains-add t.task_id k q.task_ids, v.ids k);
  }

  -- `put` keeps a valid queue valid, whether it stores the task or raises `queue.Full`, if the
  -- queue is valid too after what the other threads do during its wait.
  pub put-IsValid :
      (wake : PriorityTaskQueue W → PriorityTaskQueue W) (q : PriorityTaskQueue W)
      (t : PrioritizedTask W) (block : Bool)
      → IsValid q
      → IsValid (wake q)
      → IsValid (put hq wake q t block).1
  unfolding put
  put-IsValid wake q t block v w =
      ground (arith, enqueue-IsValid q t v, enqueue-IsValid (wake q) t w)

  pub Dequeued-IsValid :
      (q : PriorityTaskQueue W) (t : PrioritizedTask W) (q' : PriorityTaskQueue W)
      → IsValid q
      → Dequeued hq q t q'
      → IsValid q'
  Dequeued-IsValid q t q' v d = record {
    heap = d.heap;
    ids = λ k h. ground (
      arith,
      d.ids,
      contains-discard t.task_id k q.task_ids,
      v.ids k,
      any-perm (has_id k) q.queue (t ∷ q'.queue) d.kept,
    );
  }

  -- `remove` answers whether a queued task has the id. If so, it takes one such task out and keeps
  -- all others; if not, it changes nothing.
  pub remove_effect :
      (q : PriorityTaskQueue W) (k : String)
      → ((any (has_id k) q.queue ≡ true)
          × ((remove hq q k).0 ≡ true)
          × ((t : PrioritizedTask W) × (t.task_id ≡ k)
              × Perm q.queue (t ∷ (remove hq q k).1.queue)))
        ⊎ ((any (has_id k) q.queue ≡ false) × (remove hq q k ≡ (false, q)))
  unfolding remove
  remove_effect q k = elim (Bool-cases (any (has_id k) q.queue)) [
    | inl there ↦
        let (t, e, p) = erase_id-perm k q.queue there in
        inl (
          there,
          rw there refl,
          (
            t,
            e,
            rw there (Perm.trans p (Perm.cons t (Perm.symm (heapify-perm (erase_id k q.queue))))),
          ),
        )
    | inr missing ↦ inr (missing, rw missing refl)
  ]

  pub discarded :
      (k j : String) (ids : List String)
      → StringSet.contains j (StringSet.discard k ids) ≡ true
      → ((k == j) ≡ false) × (StringSet.contains j ids ≡ true)
  discarded k j ids h = ground (arith, contains-discard k j ids)

  -- `remove` keeps a valid queue valid.
  pub remove-IsValid :
      (q : PriorityTaskQueue W) (k : String) → IsValid q → IsValid (remove hq q k).1
  unfolding remove
  remove-IsValid q k v = elim (Bool-cases (any (has_id k) q.queue)) [
    | inl there ↦ rw there (record {
      heap = heapify-IsHeap (erase_id k q.queue);
      ids = λ j h.
          any-perm (has_id j) (heapify (erase_id k q.queue)) (erase_id k q.queue)
            (heapify-perm (erase_id k q.queue))
          ∙ any-erase_id k j q.queue (discarded k j q.task_ids h).0
          ∙ v.ids j (discarded k j q.task_ids h).1;
    })
    | inr missing ↦ rw missing v
  ]
