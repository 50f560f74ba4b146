-- ===== src/Cancellation.antt =====
-- fish_async_task/performance/task_cancellation.py. Tasks are objects that the manager's dict, the
-- caller of `register_task` and the running thread share: a heap `objects` stands for them, and a
-- reference is a place in it. A task's `CancelEvent` is made with the task and never replaced, so
-- that it is a field of the object, and the reference to the task stands for it too.
pub mod Tracking
pub mod Cancelling
pub mod Everything
pub mod Waiting
use fish_async_task.Prelude.{
  ℕ, zero, suc, ◌+◌, String, Bool, true, false, not, ◌&&◌, ◌||◌, Option, none, some, List, [], ◌∷◌,
  ◌++◌, if◌then◌else◌, length, get_elem?, set, ltb, leb,
}
use fish_async_task.Prelude.Dict
use fish_async_task.Prelude.Dict.{Dict}

-- `CancellableTask` and its event. `thread_alive` is `self._thread and self._thread.is_alive()`.
-- The result is an opaque `V`, an exception an `E`.
pub record CancellableTask (V E : Type 0) : Type 0 where
  pub task_id : String
  pub cancelled : Bool
  pub started : Bool
  pub completed : Bool
  pub thread_alive : Bool
  pub result : Option V
  pub exception : Option E

-- How the function of a task ends.
pub data Ending (V E : Type 0) : Type 0 where
  returned : V → Ending V E
  raised : E → Ending V E

-- What happens while the thread of a task is joined: whether the thread ends, and whether the
-- function of the task does, which a thread that outlives the wait may have completed too.
pub record Joined (V E : Type 0) : Type 0 where
  pub stops : Bool
  pub ending : Option (Ending V E)

-- What `get_result` does: it returns (None, when nothing was stored), raises the task's exception,
-- or raises `TimeoutError`.
pub data Answer (V E : Type 0) : Type 0 where
  value : Option V → Answer V E
  error : E → Answer V E
  timeout : Answer V E

module _ {V E : Type 0} where
  -- `__init__`
  unfoldable pub new_task : String → CancellableTask V E
  new_task task_id = record {
    task_id = task_id;
    cancelled = false;
    started = false;
    completed = false;
    thread_alive = false;
    result = none;
    exception = none;
  }

  -- `CancelEvent.reset`
  abbrev pub reset : CancellableTask V E → CancellableTask V E
  reset t = record t { cancelled = false }

  -- The beginning of `execute`: whether it goes on to call the function.
  unfoldable pub begin_execute : CancellableTask V E → Bool × CancellableTask V E
  begin_execute t = if t.cancelled then (false, t) else (true, record t { started = true })

  -- The end of `execute`, when the function has ended.
  unfoldable pub finish_execute : Ending V E → CancellableTask V E → CancellableTask V E
  finish_execute (returned v) t = record t { result = some v; completed = true }
  finish_execute (raised e) t = record t { exception = some e; completed = true }

  -- Whether the function of the task ended.
  abbrev pub has_ended : Option (Ending V E) → Bool
  has_ended none = false
  has_ended (some e) = true

  abbrev pub with_ending : Option (Ending V E) → CancellableTask V E → CancellableTask V E
  with_ending none t = t
  with_ending (some e) t = finish_execute e t

  -- `cancel`. The thread is joined after the event was set: meanwhile its function may end.
  unfoldable pub cancel : Joined V E → CancellableTask V E → Bool × CancellableTask V E
  unfolding finish_execute
  cancel joined t =
      if t.completed
      then (false, t)
      else (if t.thread_alive
          then (
            joined.stops,
            record (with_ending joined.ending (record t { cancelled = true })) {
              thread_alive = not joined.stops;
            },
          )
          else (true, record t { cancelled = true }))

  -- `get_result`; `completes` tells whether the task completes during the wait.
  unfoldable pub get_result : (completed : Bool) → CancellableTask V E → Answer V E
  get_result false t = timeout
  get_result true t = elim t.exception [ none ↦ value t.result | some e ↦ error e ]

-- `TaskCancellationManager`, with the objects that it and others refer to.
pub record TaskCancellationManager (V E : Type 0) : Type 0 where
  pub objects : List (CancellableTask V E)
  pub cancellable_tasks : Dict ℕ
  pub cancel_tokens : Dict ℕ

module _ {V E : Type 0} where
  -- `__init__`
  unfoldable pub new : TaskCancellationManager V E
  new = record { objects = []; cancellable_tasks = []; cancel_tokens = [] }

  -- `register_task` returns the reference to the new task, whose event it hands out.
  unfoldable pub register_task :
      TaskCancellationManager V E → String → ℕ × TaskCancellationManager V E
  unfolding new_task
  register_task m task_id =
      let ref = length m.objects in
      (
        ref,
        record {
          objects = m.objects ++ (new_task task_id ∷ []);
          cancellable_tasks = Dict.insert task_id ref m.cancellable_tasks;
          cancel_tokens = Dict.insert task_id ref m.cancel_tokens;
        },
      )

  -- `_cleanup_task`
  unfoldable pub cleanup_task : String → TaskCancellationManager V E → TaskCancellationManager V E
  cleanup_task task_id m = record m {
    cancellable_tasks = Dict.delete task_id m.cancellable_tasks;
    cancel_tokens = Dict.delete task_id m.cancel_tokens;
  }

  -- `task.cancel(timeout)` on the object at a reference. No reference dangles: the second clause is
  -- never met.
  abbrev pub cancel_found :
      (joined : Joined V E) (ref : ℕ)
      → Option (CancellableTask V E)
      → List (CancellableTask V E)
      → Bool × List (CancellableTask V E)
  cancel_found joined ref (some t) objects =
      ((cancel joined t).0, set objects ref (cancel joined t).1)
  cancel_found joined ref none objects = (false, objects)

  unfoldable pub cancel_at :
      (joined : Joined V E) → ℕ → List (CancellableTask V E) → Bool × List (CancellableTask V E)
  unfolding cancel
  cancel_at joined ref objects = cancel_found joined ref (get_elem? objects ref) objects

  -- `task.is_completed()` on the object at a reference.
  abbrev pub is_completed? : Option (CancellableTask V E) → Bool
  is_completed? none = false
  is_completed? (some t) = t.completed

  abbrev pub is_cancelled? : Option (CancellableTask V E) → Bool
  is_cancelled? none = false
  is_cancelled? (some t) = t.cancelled

  unfoldable pub cancel_ref :
      (joined : Joined V E)
      → String
      → ℕ
      → TaskCancellationManager V E
      → Bool × TaskCancellationManager V E
  unfolding cancel_at cleanup_task
  cancel_ref joined task_id ref m =
      let (success, objects) = cancel_at joined ref m.objects in
      (
        success,
        if success || is_completed? (get_elem? objects ref)
            then cleanup_task task_id (record m { objects = objects })
            else record m { objects = objects },
      )

  -- `cancel_task`
  unfoldable pub cancel_task :
      (joined : Joined V E)
      → TaskCancellationManager V E
      → String
      → Bool × TaskCancellationManager V E
  unfolding cancel_ref
  cancel_task joined m task_id = elim (Dict.lookup task_id m.cancellable_tasks) [
    | none ↦ (false, m)
    | some ref ↦ cancel_ref joined task_id ref m
  ]

  -- The loop of `cancel_all` over the list of the items; `joins` tells of each thread what
  -- happens while it is joined.
  unfoldable pub cancel_each :
      (joins : ℕ → Joined V E)
      → Dict ℕ
      → ℕ × TaskCancellationManager V E
      → ℕ × TaskCancellationManager V E
  unfolding cancel_at cleanup_task
  cancel_each joins [] acc = acc
  cancel_each joins ((task_id, ref) ∷ items) (cancelled, m) =
      let (success, objects) = cancel_at (joins ref) ref m.objects in
      cancel_each joins items (
        if success then suc cancelled else cancelled,
        cleanup_task task_id (record m { objects = objects }),
      )

  -- `cancel_all`
  unfoldable pub cancel_all :
      (joins : ℕ → Joined V E) → TaskCancellationManager V E → ℕ × TaskCancellationManager V E
  unfolding cancel_each
  cancel_all joins m = cancel_each joins m.cancellable_tasks (0, m)

  -- `get_cancel_token`
  unfoldable pub get_cancel_token : TaskCancellationManager V E → String → Option ℕ
  get_cancel_token m task_id = Dict.lookup task_id m.cancel_tokens

  -- `is_task_cancelled`
  unfoldable pub is_task_cancelled : TaskCancellationManager V E → String → Bool
  is_task_cancelled m task_id = elim (Dict.lookup task_id m.cancel_tokens) [
    | none ↦ false
    | some ref ↦ is_cancelled? (get_elem? m.objects ref)
  ]

  -- `is_task_completed`
  unfoldable pub is_task_completed : TaskCancellationManager V E → String → Bool
  is_task_completed m task_id = elim (Dict.lookup task_id m.cancellable_tasks) [
    | none ↦ false
    | some ref ↦ is_completed? (get_elem? m.objects ref)
  ]

  -- `get_active_count`
  unfoldable pub get_active_count : TaskCancellationManager V E → ℕ
  get_active_count m = length m.cancellable_tasks

-- `check_cancelled_periodically`: the rounds of the loop, each of which ends with the counter below
-- the interval. `cancelled n` is what the event says when it is asked for the n-th time; `none`
-- stands for fuel that has run out.
unfoldable pub periodic :
    (fuel : ℕ) → (cancelled : ℕ → Bool) → (asked counter interval : ℕ) → Option Bool
periodic zero cancelled asked counter interval = none
periodic (suc fuel) cancelled asked counter interval =
    let again = periodic fuel cancelled asked (suc counter) interval in
    let reset = periodic fuel cancelled (suc asked) 0 interval in
    if ltb counter interval
    then (if leb interval (suc counter)
        then (if cancelled asked then some true else reset)
        else again)
    else some (cancelled asked)

unfoldable pub check_cancelled_periodically : (fuel : ℕ) → Option (ℕ → Bool) → ℕ → Option Bool
unfolding periodic
check_cancelled_periodically fuel none check_interval = some false
check_cancelled_periodically fuel (some cancelled) check_interval =
    periodic fuel cancelled 0 0 check_interval
