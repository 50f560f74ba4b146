-- ===== src/Updater.antt =====
-- `BatchedStatusUpdater` of fish_async_task/performance/batch_updater.py. Every method body runs
-- under `_queue_lock` and is one step; the test of `_closed`, which `queue_update` and
-- `update_sync` make before they take the lock, is a step of its own. `now` is what `time.time()`
-- returns, in ticks. An exception is `none`.
pub mod View
pub mod Bounds
pub mod Delivery
use fish_async_task.Prelude.{
  ℕ, zero, suc, ◌+◌, String, Bool, true, false, not, ◌&&◌, ◌||◌, Option, none, some, List, [], ◌∷◌,
  ltb, leb, if◌then◌else◌, length,
}
use fish_async_task.Prelude.Dict
use fish_async_task.Prelude.Dict.{Dict}
use fish_async_task.Status.{TaskStatusDict}

pub record BatchedStatusUpdater (R : Type 0) : Type 0 where
  pub buffer_size : ℕ
  pub flush_interval : ℕ
  pub underlying_store : Dict (TaskStatusDict R)
  pub buffer : Dict (TaskStatusDict R)
  pub last_flush_time : ℕ
  pub closed : Bool

module _ {R : Type 0} where
  -- `__init__`
  unfoldable pub new : ℕ → ℕ → Dict (TaskStatusDict R) → ℕ → Option (BatchedStatusUpdater R)
  new buffer_size flush_interval store now =
      if ltb buffer_size 1 || leb flush_interval 0
      then none
      else some (record {
        buffer_size = buffer_size;
        flush_interval = flush_interval;
        underlying_store = store;
        buffer = [];
        last_flush_time = now;
        closed = false;
      })

  -- The loop of `_flush_unlocked`, with the store and the count that it carries.
  unfoldable pub write_items :
      Dict (TaskStatusDict R) → Dict (TaskStatusDict R) → ℕ → Dict (TaskStatusDict R) × ℕ
  write_items [] store flushed_count = (store, flushed_count)
  write_items ((task_id, status) ∷ items) store flushed_count =
      write_items items (Dict.insert task_id status store) (suc flushed_count)

  -- `_flush_unlocked`
  unfoldable pub flush_unlocked : BatchedStatusUpdater R → BatchedStatusUpdater R × ℕ
  flush_unlocked u =
      if Dict.is_empty u.buffer
      then (u, 0)
      else let (store, flushed_count) = write_items u.buffer u.underlying_store 0 in
        (record u { underlying_store = store; buffer = [] }, flushed_count)

  -- `flush`
  unfoldable pub flush : BatchedStatusUpdater R → BatchedStatusUpdater R × ℕ
  flush u = flush_unlocked u

  -- `self._flush_unlocked()` and `self._last_flush_time = current_time`
  unfoldable pub flush_at : ℕ → BatchedStatusUpdater R → BatchedStatusUpdater R
  flush_at now u = record (flush_unlocked u).0 { last_flush_time = now }

  -- The first test of `queue_update` under the lock: the interval is over and something waits.
  unfoldable pub flush_if_due : ℕ → BatchedStatusUpdater R → BatchedStatusUpdater R
  flush_if_due now u =
      if leb (u.last_flush_time + u.flush_interval) now && not (Dict.is_empty u.buffer)
      then flush_at now u
      else u

  -- The last test of `queue_update`: the buffer is full.
  unfoldable pub flush_if_full : ℕ → BatchedStatusUpdater R → BatchedStatusUpdater R
  flush_if_full now u = if leb u.buffer_size (length u.buffer) then flush_at now u else u

  -- The assignment to the buffer.
  unfoldable pub buffer_status :
      String → TaskStatusDict R → BatchedStatusUpdater R → BatchedStatusUpdater R
  buffer_status task_id status u = record u { buffer = Dict.insert task_id status u.buffer }

  -- The part of `queue_update` under the lock.
  unfoldable pub enqueue_update :
      ℕ → String → TaskStatusDict R → BatchedStatusUpdater R → BatchedStatusUpdater R
  enqueue_update now task_id status u =
      flush_if_full now (buffer_status task_id status (flush_if_due now u))

  -- `queue_update`
  unfoldable pub queue_update :
      ℕ → String → TaskStatusDict R → BatchedStatusUpdater R → Option (BatchedStatusUpdater R)
  queue_update now task_id status u =
      if u.closed then none else some (enqueue_update now task_id status u)

  -- The part of `update_sync` under the lock.
  unfoldable pub write_status :
      String → TaskStatusDict R → BatchedStatusUpdater R → BatchedStatusUpdater R
  write_status task_id status u = record u {
    underlying_store = Dict.insert task_id status u.underlying_store;
  }

  -- `update_sync`
  unfoldable pub update_sync :
      String → TaskStatusDict R → BatchedStatusUpdater R → Option (BatchedStatusUpdater R)
  update_sync task_id status u = if u.closed then none else some (write_status task_id status u)

  -- `get_buffer_length`
  abbrev pub get_buffer_length : BatchedStatusUpdater R → ℕ
  get_buffer_length u = length u.buffer

  -- `close`
  unfoldable pub close : BatchedStatusUpdater R → BatchedStatusUpdater R
  close u = if u.closed then u else record (flush_unlocked u).0 { closed = true }
