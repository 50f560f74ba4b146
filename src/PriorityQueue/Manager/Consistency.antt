-- ===== src/PriorityQueue/Manager/Consistency.antt =====
-- The manager's dict and its queue: that they agree, and what `cancel_task` brings about.
use fish_async_task.Prelude.{
  ℕ, ◌≤◌, ◌≡◌, inl, inr, ◌∙◌, String, true, false, ◌||◌, Option, arith, any, count, Bool-cases,
  ◌==◌, eq_refl, subst, sym, ap,
}
use fish_async_task.Prelude.Int.{ℤ}
use fish_async_task.Prelude.Dict
use fish_async_task.Prelude.Dict.{has-insert, has-delete}
use fish_async_task.Prelude.Heapq.{Heapq}
use fish_async_task.PriorityQueue.{PrioritizedTask, before, has_id, PriorityTaskQueue, enqueue, put}
use fish_async_task.PriorityQueue.Membership.{remove_effect}
use fish_async_task.PriorityQueue.Exact.{
  IsExact, enqueue-IsExact, remove-IsExact, remove_duplicate, any-enqueue, any-remove,
  contains-IsExact,
}
use fish_async_task.PriorityQueue.Manager.{PriorityTaskManager, id_or, submit_task, cancel_task}

-- The pending tasks are those of the queue, and each id stands for one task.
pub record IsConsistent {W : Type 0} (m : PriorityTaskManager W) : Type 0 where
  pub exact : IsExact m.queue
  pub pending : (k : String) → Dict.has k m.pending_tasks ≡ any (has_id k) m.queue.queue

module _ {W : Type 0} (hq : Heapq (before {W = W})) where
  open hq use {IsHeap, heappush, heappush-perm}

  -- The blocking `put` of the manager always stores the task.
  submit-queue :
      (uuid : String) (now : ℕ) (m : PriorityTaskManager W) (work : W) (priority : ℤ)
      (task_id : Option String)
      → (submit_task hq uuid now m work priority task_id).1.queue
        ≡ enqueue hq m.queue (record {
          priority = priority;
          task_id = id_or uuid task_id;
          work = work;
          submit_time = now;
        })
  unfolding submit_task put
  submit-queue uuid now m work priority task_id = ground arith

  has_submitted :
      (uuid : String) (now : ℕ) (m : PriorityTaskManager W) (work : W) (priority : ℤ)
      (task_id : Option String) (j : String)
      → Dict.has j (submit_task hq uuid now m work priority task_id).1.pending_tasks
        ≡ ((id_or uuid task_id == j) || Dict.has j m.pending_tasks)
  unfolding submit_task
  has_submitted uuid now m work priority task_id j =
      has-insert (id_or uuid task_id) j _ m.pending_tasks

  -- Submitting a task to a consistent manager under an id that is not pending keeps the dict and
  -- the queue in agreement.
  pub submit_task-IsConsistent :
      (uuid : String) (now : ℕ) (m : PriorityTaskManager W) (work : W) (priority : ℤ)
      (task_id : Option String)
      → IsConsistent m
      → Dict.has (id_or uuid task_id) m.pending_tasks ≡ false
      → IsConsistent (submit_task hq uuid now m work priority task_id).1
  submit_task-IsConsistent uuid now m work priority task_id c new_id =
      let k = id_or uuid task_id in
      let t : PrioritizedTask W = record {
        priority = priority;
        task_id = k;
        work = work;
        submit_time = now;
      } in
      let stored = submit-queue uuid now m work priority task_id in
      record {
        exact = subst IsExact (sym stored) (
            enqueue-IsExact hq m.queue t c.exact
              (contains-IsExact m.queue k c.exact ∙ sym (c.pending k) ∙ new_id));
        pending = λ j.
            has_submitted uuid now m work priority task_id j
            ∙ ground (arith, c.pending j, any-enqueue hq m.queue t j)
            ∙ ap (λ (q : PriorityTaskQueue W). any (has_id j) q.queue) (sym stored);
      }

  -- In a consistent manager `cancel_task` answers true exactly for a pending id; afterwards neither
  -- the queue nor the dict holds a task with this id, and the manager is consistent.
  pub cancel_task_complete :
      (m : PriorityTaskManager W) (k : String)
      → IsConsistent m
      → ((cancel_task hq m k).0 ≡ Dict.has k m.pending_tasks)
        × (any (has_id k) (cancel_task hq m k).1.queue.queue ≡ false)
        × (Dict.has k (cancel_task hq m k).1.pending_tasks ≡ false)
        × IsConsistent (cancel_task hq m k).1
  unfolding cancel_task
  cancel_task_complete m k c = (
    ground (arith, c.pending k, remove_effect hq m.queue k),
    ground (arith, c.pending k, any-remove hq m.queue k k (c.exact.distinct k), eq_refl k),
    ground (arith, has-delete k k m.pending_tasks, eq_refl k),
    elim (Bool-cases (Dict.has k m.pending_tasks)) [
      | inl there ↦ rw there (record {
        exact = remove-IsExact hq m.queue k c.exact;
        pending = λ j. ground (
          arith,
          c.pending j,
          has-delete k j m.pending_tasks,
          any-remove hq m.queue k j (c.exact.distinct k),
        );
      })
      | inr missing ↦ rw missing c
    ],
  )

  -- When an id is pending and at least two queued tasks have it, `cancel_task` answers true, a task
  -- with the id is still in the queue, and the next `cancel_task` of the id answers false.
  pub cancel_task_duplicate :
      (m : PriorityTaskManager W) (k : String)
      → Dict.has k m.pending_tasks ≡ true
      → 2 ≤ count (has_id k) m.queue.queue
      → ((cancel_task hq m k).0 ≡ true)
        × (any (has_id k) (cancel_task hq m k).1.queue.queue ≡ true)
        × ((cancel_task hq (cancel_task hq m k).1 k).0 ≡ false)
  unfolding cancel_task
  cancel_task_duplicate m k p h =
      let d = remove_duplicate hq m.queue k h in
      (
        ground (arith, d),
        ground (arith, d),
        ground (arith, has-delete k k m.pending_tasks, eq_refl k),
      )
