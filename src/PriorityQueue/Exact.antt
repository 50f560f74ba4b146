-- ===== src/PriorityQueue/Exact.antt =====
-- `contains` of the priority queue, where the ids are distinct and where one stands twice.
use fish_async_task.Prelude.{
  ◌-◌, ◌≤◌, ◌≡◌, inl, inr, subst, String, true, false, not, ◌&&◌, ◌||◌, List, [], ◌∷◌, arith,
  if◌then◌else◌, any, count, any-perm, count-perm, Bool-cases, ◌==◌, eq_iff, eq_refl, leb,
}
use fish_async_task.Prelude.Heapq.{Heapq}
use fish_async_task.Prelude.StringSet
use fish_async_task.Prelude.StringSet.{contains-add, contains-discard}
use fish_async_task.PriorityQueue.{
  PrioritizedTask, before, has_id, PriorityTaskQueue, erase_id, enqueue, remove, contains,
}
use fish_async_task.PriorityQueue.Order.{Dequeued}
use fish_async_task.PriorityQueue.Membership.{remove_effect}

module _ {W : Type 0} where
  -- `contains` tells exactly the ids of the heap, and no two tasks share one.
  pub record IsExact (q : PriorityTaskQueue W) : Type 0 where
    pub agrees : (k : String) → StringSet.contains k q.task_ids ≡ any (has_id k) q.queue
    pub distinct : (k : String) → count (has_id k) q.queue ≤ 1

  pub count_zero :
      (k : String) (ts : List (PrioritizedTask W)) → any (has_id k) ts ≡ leb 1 (count (has_id k) ts)
  count_zero k [] = ground arith
  count_zero k (t ∷ ts) = ground (arith, count_zero k ts)

  pub contains-IsExact :
      (q : PriorityTaskQueue W) (k : String) → IsExact q → contains q k ≡ any (has_id k) q.queue
  unfolding contains
  contains-IsExact q k x = x.agrees k

  count-erase_id :
      (k j : String) (ts : List (PrioritizedTask W))
      → count (has_id j) (erase_id k ts)
        ≡ (if k == j then count (has_id j) ts - 1 else count (has_id j) ts)
  unfolding erase_id
  count-erase_id k j [] = ground arith
  count-erase_id k j (t ∷ ts) =
      ground (arith, count-erase_id k j ts, eq_iff t.task_id k, eq_iff t.task_id j, eq_iff k j)

module _ {W : Type 0} (hq : Heapq (before {W = W})) where
  open hq use {
    IsHeap, heappush, heappush-IsHeap, heappush-perm, heapify, heapify-IsHeap, heapify-perm,
  }

  pub count-remove :
      (q : PriorityTaskQueue W) (k j : String)
      → count (has_id j) (remove hq q k).1.queue
        ≡ (if k == j then count (has_id j) q.queue - 1 else count (has_id j) q.queue)
  unfolding remove
  count-remove q k j = ground (
    arith,
    count-perm (has_id j) (heapify (erase_id k q.queue)) (erase_id k q.queue)
        (heapify-perm (erase_id k q.queue)),
    count-erase_id k j q.queue,
    count_zero k q.queue,
    eq_iff k j,
  )

  pub contains-remove :
      (q : PriorityTaskQueue W) (k j : String)
      → any (has_id k) q.queue ≡ true
      → StringSet.contains j (remove hq q k).1.task_ids
        ≡ (not (k == j) && StringSet.contains j q.task_ids)
  unfolding remove
  contains-remove q k j h = ground (arith, contains-discard k j q.task_ids)

  pub any-enqueue :
      (q : PriorityTaskQueue W) (t : PrioritizedTask W) (k : String)
      → any (has_id k) (enqueue hq q t).queue ≡ ((t.task_id == k) || any (has_id k) q.queue)
  unfolding enqueue
  any-enqueue q t k =
      any-perm (has_id k) (heappush t q.queue) (t ∷ q.queue) (heappush-perm t q.queue)

  pub any-remove :
      (q : PriorityTaskQueue W) (k j : String)
      → count (has_id k) q.queue ≤ 1
      → any (has_id j) (remove hq q k).1.queue ≡ (not (k == j) && any (has_id j) q.queue)
  any-remove q k j h = ground (
    arith,
    count-remove q k j,
    count_zero j q.queue,
    count_zero j (remove hq q k).1.queue,
    eq_iff k j,
  )

  -- When the ids in the heap are distinct and `contains` answers exactly whether a task with an id
  -- is in it, then both still hold after a task is stored whose id `contains` denied.
  pub enqueue-IsExact :
      (q : PriorityTaskQueue W) (t : PrioritizedTask W)
      → IsExact q
      → contains q t.task_id ≡ false
      → IsExact (enqueue hq q t)
  unfolding enqueue contains
  enqueue-IsExact q t x new_id = record {
    agrees = λ k. ground (
      arith,
      contains-add t.task_id k q.task_ids,
      x.agrees k,
      any-perm (has_id k) (heappush t q.queue) (t ∷ q.queue) (heappush-perm t q.queue),
    );
    distinct = λ k. ground (
      arith,
      count-perm (has_id k) (heappush t q.queue) (t ∷ q.queue) (heappush-perm t q.queue),
      x.distinct k,
      x.agrees t.task_id,
      eq_iff t.task_id k,
      count_zero k q.queue,
      count_zero t.task_id q.queue,
    );
  }

  pub Dequeued-IsExact :
      (q : PriorityTaskQueue W) (t : PrioritizedTask W) (q' : PriorityTaskQueue W)
      → IsExact q
      → Dequeued hq q t q'
      → IsExact q'
  Dequeued-IsExact q t q' x d = record {
    agrees = λ k. ground (
      arith,
      d.ids,
      contains-discard t.task_id k q.task_ids,
      x.agrees k,
      any-perm (has_id k) q.queue (t ∷ q'.queue) d.kept,
      count-perm (has_id k) q.queue (t ∷ q'.queue) d.kept,
      x.distinct k,
      count_zero k q'.queue,
    );
    distinct =
        λ k. ground (arith, count-perm (has_id k) q.queue (t ∷ q'.queue) d.kept, x.distinct k);
  }

  pub remove-IsExact :
      (q : PriorityTaskQueue W) (k : String) → IsExact q → IsExact (remove hq q k).1
  remove-IsExact q k x = elim (Bool-cases (any (has_id k) q.queue)) [
    | inl there ↦ record {
      agrees = λ j. ground (
        arith,
        contains-remove q k j there,
        count-remove q k j,
        x.agrees j,
        x.distinct j,
        eq_iff k j,
        count_zero j q.queue,
        count_zero j (remove hq q k).1.queue,
      );
      distinct = λ j. ground (arith, count-remove q k j, x.distinct j);
    }
    | inr missing ↦ subst IsExact (ground (arith, remove_effect hq q k)) x
  ]

  -- If two queued tasks share an id, then `remove` answers true, one of them is still in the heap,
  -- and `contains` denies it.
  pub remove_duplicate :
      (q : PriorityTaskQueue W) (k : String)
      → 2 ≤ count (has_id k) q.queue
      → ((remove hq q k).0 ≡ true)
        × (contains (remove hq q k).1 k ≡ false)
        × (any (has_id k) (remove hq q k).1.queue ≡ true)
  unfolding contains
  remove_duplicate q k h =
      let there : any (has_id k) q.queue ≡ true = ground (arith, count_zero k q.queue) in
      (
        ground (arith, remove_effect hq q k),
        ground (arith, contains-remove q k k there, eq_refl k),
        ground (arith, count_zero k (remove hq q k).1.queue, count-remove q k k, eq_refl k),
      )
