-- ===== src/PriorityQueue.antt =====
-- fish_async_task/performance/priority_queue.py, `PrioritizedTask` and `PriorityTaskQueue`.
-- Each method holds the queue's lock from beginning to end, so it is one step. `wait` gives the
-- lock up: what the other threads make of the queue meanwhile is the argument `wake`.
-- `heapq` is the parameter `hq`. The callable with its arguments is an opaque `W`.
pub mod Order
pub mod Membership
pub mod Exact
pub mod Capacity
pub mod Manager
use fish_async_task.Prelude.{
  ℕ, String, ◌≡◌, Bool, true, false, not, ◌&&◌, Option, none, some, List, [], ◌∷◌, ltb, leb,
  if◌then◌else◌, ◌==◌, length, any,
}
use fish_async_task.Prelude.Int.{ℤ, lt_int}
use fish_async_task.Prelude.Heapq.{Heapq}
use fish_async_task.Prelude.StringSet

-- The smaller the priority, the sooner.
pub record PrioritizedTask (W : Type 0) : Type 0 where
  pub priority : ℤ
  pub task_id : String
  pub work : W
  pub submit_time : ℕ

-- `task < other`: the dataclass compares the priority alone.
abbrev pub before : {W : Type 0} → PrioritizedTask W → PrioritizedTask W → Bool
before t u = lt_int t.priority u.priority

-- A `maxsize` of 0 is no limit.
pub record PriorityTaskQueue (W : Type 0) : Type 0 where
  pub maxsize : ℕ
  pub queue : List (PrioritizedTask W)
  pub task_ids : List String

-- The exceptions `queue.Full` and `queue.Empty`.
pub data Outcome (A : Type 0) : Type 0 where
  done : A → Outcome A
  full_error : Outcome A
  empty_error : Outcome A

abbrev pub has_id : {W : Type 0} → String → PrioritizedTask W → Bool
has_id k t = t.task_id == k

-- `del self._queue[i]` at the first index where the id is met.
unfoldable pub erase_id :
    {W : Type 0} → String → List (PrioritizedTask W) → List (PrioritizedTask W)
erase_id k [] = []
erase_id k (t ∷ ts) = if has_id k t then ts else t ∷ erase_id k ts

-- `not self._queue`
abbrev pub is_empty : {W : Type 0} → List (PrioritizedTask W) → Bool
is_empty [] = true
is_empty (_ ∷ _) = false

-- `PriorityTaskQueue.__init__`
unfoldable pub new : {W : Type 0} → ℕ → PriorityTaskQueue W
new maxsize = record { maxsize = maxsize; queue = []; task_ids = [] }

-- `len(self._queue) >= self.maxsize`
abbrev pub at_capacity : {W : Type 0} → PriorityTaskQueue W → Bool
at_capacity q = leb q.maxsize (length q.queue)

module _ {W : Type 0} (hq : Heapq (before {W = W})) where
  open hq use {heappush, heappop, heapify}

  -- The end of `put`, behind the tests of the capacity.
  pub enqueue : PriorityTaskQueue W → PrioritizedTask W → PriorityTaskQueue W
  enqueue q t = record q {
    queue = heappush t q.queue;
    task_ids = StringSet.add t.task_id q.task_ids;
  }

  -- The `while` loop of `put`: after one wait it raises or its test fails.
  wait_not_full :
      (PriorityTaskQueue W → PriorityTaskQueue W)
      → PriorityTaskQueue W
      → Outcome Unit × PriorityTaskQueue W
  wait_not_full wake q =
      if at_capacity q
      then (if at_capacity (wake q) then (full_error, wake q) else (done tt, wake q))
      else (done tt, q)

  then_enqueue :
      Outcome Unit × PriorityTaskQueue W → PrioritizedTask W → Outcome Unit × PriorityTaskQueue W
  unfolding enqueue
  then_enqueue (done _, q) t = (done tt, enqueue q t)
  then_enqueue (full_error, q) t = (full_error, q)
  then_enqueue (empty_error, q) t = (empty_error, q)

  unfoldable pub put :
      (PriorityTaskQueue W → PriorityTaskQueue W)
      → PriorityTaskQueue W
      → PrioritizedTask W
      → (block : Bool) → Outcome Unit × PriorityTaskQueue W
  unfolding enqueue wait_not_full then_enqueue
  put wake q t block =
      if ltb 0 q.maxsize && not block
      then (if at_capacity q then (full_error, q) else then_enqueue (wait_not_full wake q) t)
      else (done tt, enqueue q t)

  take_front :
      PriorityTaskQueue W
      → Option (PrioritizedTask W × List (PrioritizedTask W))
      → Outcome (PrioritizedTask W) × PriorityTaskQueue W
  take_front q none = (empty_error, q)
  take_front q (some (t, rest)) =
      (done t, record q { queue = rest; task_ids = StringSet.discard t.task_id q.task_ids })

  -- The end of `get`, behind its tests: an empty queue has raised `queue.Empty` there.
  dequeue : PriorityTaskQueue W → Outcome (PrioritizedTask W) × PriorityTaskQueue W
  unfolding take_front
  dequeue q = take_front q (heappop q.queue)

  unfoldable pub get :
      (PriorityTaskQueue W → PriorityTaskQueue W)
      → PriorityTaskQueue W
      → (block : Bool) → Outcome (PrioritizedTask W) × PriorityTaskQueue W
  unfolding dequeue
  get wake q block =
      if is_empty q.queue
      then (if block
          then (if is_empty (wake q).queue then (empty_error, wake q) else dequeue (wake q))
          else (empty_error, q))
      else dequeue q

  unfoldable pub remove : PriorityTaskQueue W → String → Bool × PriorityTaskQueue W
  remove q k =
      if any (has_id k) q.queue
      then (
        true,
        record q {
          queue = heapify (erase_id k q.queue);
          task_ids = StringSet.discard k q.task_ids;
        },
      )
      else (false, q)

module _ {W : Type 0} where
  unfoldable pub qsize : PriorityTaskQueue W → ℕ
  qsize q = length q.queue

  unfoldable pub empty : PriorityTaskQueue W → Bool
  empty q = leb (length q.queue) 0

  unfoldable pub full : PriorityTaskQueue W → Bool
  full q = if leb q.maxsize 0 then false else at_capacity q

  unfoldable pub contains : PriorityTaskQueue W → String → Bool
  contains q k = StringSet.contains k q.task_ids

  unfoldable pub clear : PriorityTaskQueue W → ℕ × PriorityTaskQueue W
  clear q = (length q.queue, record q { queue = []; task_ids = [] })
