-- ===== src/PriorityQueue/Capacity.antt =====
-- `maxsize`: `put` with and without blocking, and `full`.
use fish_async_task.Prelude.{
  suc, ◌≤◌, ◌<◌, ◌≡◌, false, arith, length, length-perm, if◌then◌else◌, ◌∷◌,
}
use fish_async_task.Prelude.Heapq.{Heapq}
use fish_async_task.PriorityQueue.{
  PrioritizedTask, before, PriorityTaskQueue, done, full_error, enqueue, put, full, qsize,
}

module _ {W : Type 0} (hq : Heapq (before {W = W})) where
  open hq use {heappush, heappush-perm}

  pub length-enqueue :
      (q : PriorityTaskQueue W) (t : PrioritizedTask W)
      → length (enqueue hq q t).queue ≡ suc (length q.queue)
  unfolding enqueue
  length-enqueue q t = length-perm (heappush t q.queue) (t ∷ q.queue) (heappush-perm t q.queue)

  -- `put(block=False)` raises `queue.Full` and changes nothing exactly when `full` holds, and else
  -- stores the task; it never waits, so that what other threads do is of no consequence.
  pub put_nonblocking :
      (wake : PriorityTaskQueue W → PriorityTaskQueue W) (q : PriorityTaskQueue W)
      (t : PrioritizedTask W)
      → put hq wake q t false ≡ (if full q then (full_error, q) else (done tt, enqueue hq q t))
  unfolding put full
  put_nonblocking wake q t = ground arith

  -- `put(block=False)` does not take a queue with a limit beyond it, if it was not beyond it
  -- before.
  pub put_nonblocking_bound :
      (wake : PriorityTaskQueue W → PriorityTaskQueue W) (q : PriorityTaskQueue W)
      (t : PrioritizedTask W)
      → 0 < q.maxsize
      → qsize q ≤ q.maxsize
      → qsize (put hq wake q t false).1 ≤ (put hq wake q t false).1.maxsize
  unfolding put qsize
  put_nonblocking_bound wake q t h b = ground (arith, length-enqueue q t)
