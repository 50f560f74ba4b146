-- ===== src/PriorityQueue/Manager.antt =====
-- `PriorityTaskManager` of fish_async_task/performance/priority_queue.py: a queue and the dict of
-- the tasks that are not handed out yet. `put` runs under the manager's lock; in `get_task` only
-- the removal from the dict does. The uuid that `submit_task` draws is an argument.
pub mod Consistency
use fish_async_task.Prelude.{
  ℕ, String, ◌≡◌, Bool, true, false, not, ◌&&◌, Option, none, some, List, [], ◌∷◌, arith, length,
  if◌then◌else◌,
}
use fish_async_task.Prelude.Int.{ℤ}
use fish_async_task.Prelude.Dict
use fish_async_task.Prelude.Dict.{Dict}
use fish_async_task.Prelude.Heapq.{Heapq}
use fish_async_task.PriorityQueue.{
  PrioritizedTask, before, PriorityTaskQueue, Outcome, done, full_error, empty_error, put, get,
  remove,
}
use fish_async_task.PriorityQueue

pub record PriorityTaskManager (W : Type 0) : Type 0 where
  pub queue : PriorityTaskQueue W
  pub pending_tasks : Dict (PrioritizedTask W)

-- `PriorityTaskManager.__init__`
unfoldable pub new : {W : Type 0} → ℕ → PriorityTaskManager W
new maxsize = record { queue = PriorityQueue.new maxsize; pending_tasks = [] }

-- `task_id if given, else a new uuid`
abbrev pub id_or : String → Option String → String
id_or uuid none = uuid
id_or uuid (some k) = k

module _ {W : Type 0} (hq : Heapq (before {W = W})) where
  -- The `put` is the blocking one.
  unfoldable pub submit_task :
      (uuid : String) (now : ℕ)
      → PriorityTaskManager W
      → (work : W) (priority : ℤ) (task_id : Option String) → String × PriorityTaskManager W
  submit_task uuid now m work priority task_id =
      let k = id_or uuid task_id in
      let task : PrioritizedTask W = record {
        priority = priority;
        task_id = k;
        work = work;
        submit_time = now;
      } in
      (
        k,
        record {
          queue = (put hq (λ q. q) m.queue task true).1;
          pending_tasks = Dict.insert k task m.pending_tasks;
        },
      )

  then_forget :
      PriorityTaskManager W
      → Outcome (PrioritizedTask W) × PriorityTaskQueue W
      → Option (PrioritizedTask W) × PriorityTaskManager W
  then_forget m (done t, q) =
      (some t, record { queue = q; pending_tasks = Dict.delete t.task_id m.pending_tasks })
  then_forget m (full_error, q) = (none, record m { queue = q })
  then_forget m (empty_error, q) = (none, record m { queue = q })

  -- `wake` is what the other threads make of the manager while `get` waits.
  unfoldable pub get_task :
      (PriorityTaskManager W → PriorityTaskManager W)
      → PriorityTaskManager W
      → Option (PrioritizedTask W) × PriorityTaskManager W
  unfolding then_forget
  get_task wake m =
      then_forget (if PriorityQueue.empty m.queue then wake m else m)
        (get hq (λ _. (wake m).queue) m.queue true)

  unfoldable pub cancel_task : PriorityTaskManager W → String → Bool × PriorityTaskManager W
  cancel_task m k =
      if Dict.has k m.pending_tasks
      then (
        (remove hq m.queue k).0,
        record { queue = (remove hq m.queue k).1; pending_tasks = Dict.delete k m.pending_tasks },
      )
      else (false, m)

module _ {W : Type 0} where
  unfoldable pub get_queue_size : PriorityTaskManager W → ℕ
  get_queue_size m = PriorityQueue.qsize m.queue

  unfoldable pub is_empty : PriorityTaskManager W → Bool
  is_empty m = PriorityQueue.empty m.queue

  unfoldable pub get_pending_count : PriorityTaskManager W → ℕ
  get_pending_count m = length m.pending_tasks
