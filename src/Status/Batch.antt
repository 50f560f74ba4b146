-- ===== src/Status/Batch.antt =====
-- The batching of fish_async_task/task_status.py: its `BatchedStatusUpdater`, which is another
-- class than that of performance/batch_updater.py, and the methods of `TaskStatusManager` that go
-- through it. A method of the updater holds the lock of its batch from beginning to end, the writes
-- to the store included, and is one step. `_do_update_task_status` raises nothing here, so that the
-- clauses of `_flush` for its exceptions are never entered. `now` is what `time.time()` returns.
pub mod Settled
pub mod Refinement
pub mod Clearing
use fish_async_task.Prelude.{
  ℕ, zero, suc, ◌+◌, String, Bool, true, false, ◌||◌, ◌&&◌, Option, none, some, List, [], ◌∷◌, ◌++◌,
  leb, ltb, eqb, if◌then◌else◌, length,
}
use fish_async_task.Status.{TaskStatusDict}
use fish_async_task.Status.Merge.{Update}
use fish_async_task.Status.Store
use fish_async_task.Status.Store.{Store, Runtime}
use fish_async_task.Status.Manager.{do_update_task_status}

pub record BatchedStatusUpdater (R : Type 0) : Type 0 where
  pub batch_size : ℕ
  pub flush_interval : ℕ
  pub batch : List (Update R)
  pub last_flush : ℕ

-- `__init__`
unfoldable pub new : {R : Type 0} → (batch_size flush_interval now : ℕ) → BatchedStatusUpdater R
new batch_size flush_interval now = record {
  batch_size = batch_size;
  flush_interval = flush_interval;
  batch = [];
  last_flush = now;
}

-- `time_since_last_flush >= self.flush_interval`
abbrev pub interval_over : {R : Type 0} → ℕ → BatchedStatusUpdater R → Bool
interval_over now b = leb (b.last_flush + b.flush_interval) now

-- `get_pending_count`
abbrev pub get_pending_count : {R : Type 0} → BatchedStatusUpdater R → ℕ
get_pending_count b = length b.batch

module _ {R : Type 0} (py : Runtime) where
  -- The loop of `_flush` over the items of the batch.
  unfoldable pub apply_batch : Store R → List (Update R) → Store R
  apply_batch s [] = s
  apply_batch s (u ∷ us) = apply_batch (do_update_task_status py s u) us

  -- `_flush`
  unfoldable pub flush : BatchedStatusUpdater R × Store R → BatchedStatusUpdater R × Store R
  unfolding apply_batch
  flush (b, s) = (record b { batch = [] }, apply_batch s b.batch)

  unfoldable pub update :
      (now : ℕ) → Update R → BatchedStatusUpdater R × Store R → BatchedStatusUpdater R × Store R
  unfolding flush
  update now u (b, s) =
      let b' : BatchedStatusUpdater R = record b { batch = b.batch ++ (u ∷ []) } in
      if leb b.batch_size (length b'.batch) || interval_over now b
      then flush (record b' { last_flush = now }, s)
      else (b', s)

  unfoldable pub check_and_flush :
      (now : ℕ) → BatchedStatusUpdater R × Store R → BatchedStatusUpdater R × Store R
  unfolding flush
  check_and_flush now (b, s) =
      if ltb 0 (length b.batch) && interval_over now b
      then flush (record b { last_flush = now }, s)
      else (b, s)

  -- `force_flush`, and `shutdown`, which calls it
  unfoldable pub force_flush :
      BatchedStatusUpdater R × Store R → ℕ × (BatchedStatusUpdater R × Store R)
  unfolding flush
  force_flush (b, s) = (length b.batch, if ltb 0 (length b.batch) then flush (b, s) else (b, s))

-- The fields of `TaskStatusManager` that the updates and the clean-up use.
pub record TaskStatusManager (R : Type 0) : Type 0 where
  pub sharded_status : Store R
  pub batch_size : ℕ
  pub batch_flush_interval : ℕ
  pub batch_updater : Option (BatchedStatusUpdater R)
  pub use_batch_update : Bool

module _ {R : Type 0} where
  unfoldable pub new_updater : ℕ → TaskStatusManager R → BatchedStatusUpdater R
  unfolding new
  new_updater now m = new m.batch_size m.batch_flush_interval now

  abbrev pub or_new :
      Option (BatchedStatusUpdater R) → BatchedStatusUpdater R → BatchedStatusUpdater R
  or_new none b = b
  or_new (some b) _ = b

  -- `get_pending_update_count`
  abbrev pub pending_of : Option (BatchedStatusUpdater R) → List (Update R)
  pending_of none = []
  pending_of (some b) = b.batch

  unfoldable pub get_pending_update_count : TaskStatusManager R → ℕ
  get_pending_update_count m = length (pending_of m.batch_updater)

module _ {R : Type 0} (py : Runtime) where
  -- `if self._batch_updater is not None` and what `shutdown` does then.
  abbrev pub shut_updater :
      TaskStatusManager R → Option (BatchedStatusUpdater R) → ℕ × TaskStatusManager R
  shut_updater m none = (0, m)
  shut_updater m (some b) =
      let (n, (_, s)) = force_flush py (b, m.sharded_status) in
      (n, record m { sharded_status = s; batch_updater = none })

  unfoldable pub shutdown : TaskStatusManager R → ℕ × TaskStatusManager R
  shutdown m = shut_updater m m.batch_updater

  unfoldable pub enable_batch_update : (now : ℕ) → Bool → TaskStatusManager R → TaskStatusManager R
  unfolding new_updater
  enable_batch_update now true m = record m {
    use_batch_update = true;
    batch_updater = some (or_new m.batch_updater (new_updater now m));
  }
  enable_batch_update now false m = record (shut_updater m m.batch_updater).1 {
    use_batch_update = false;
  }

  -- `__init__`, without the reading of the number of shards from the environment.
  unfoldable pub new_manager :
      (now batch_size batch_flush_interval : ℕ) → Store R → TaskStatusManager R
  unfolding enable_batch_update
  new_manager now batch_size batch_flush_interval s = enable_batch_update now true (record {
    sharded_status = s;
    batch_size = batch_size;
    batch_flush_interval = batch_flush_interval;
    batch_updater = none;
    use_batch_update = true;
  })

  -- `update_task_status`, given the updater where the test finds one.
  abbrev pub update_through :
      ℕ
      → Update R
      → TaskStatusManager R
      → (use_batch : Bool) → Option (BatchedStatusUpdater R)
      → TaskStatusManager R
  update_through now u m true (some b) =
      let (b', s) = update py now u (b, m.sharded_status) in
      record m { sharded_status = s; batch_updater = some b' }
  update_through now u m true none = record m {
    sharded_status = do_update_task_status py m.sharded_status u;
  }
  update_through now u m false o = record m {
    sharded_status = do_update_task_status py m.sharded_status u;
  }

  unfoldable pub update_task_status :
      (now : ℕ) → Update R → TaskStatusManager R → TaskStatusManager R
  update_task_status now u m = update_through now u m m.use_batch_update m.batch_updater

  -- `self._batch_updater.check_and_flush()`, where there is an updater.
  abbrev pub check_updater :
      ℕ → TaskStatusManager R → Option (BatchedStatusUpdater R) → TaskStatusManager R
  check_updater now m none = m
  check_updater now m (some b) =
      let (b', s) = check_and_flush py now (b, m.sharded_status) in
      record m { sharded_status = s; batch_updater = some b' }

  unfoldable pub get_task_status : TaskStatusManager R → String → Option (TaskStatusDict R)
  get_task_status m k = Store.get_status py m.sharded_status k

  -- `clear_task_status(task_id)` of a given id that is not empty.
  unfoldable pub clear_task : TaskStatusManager R → String → TaskStatusManager R
  clear_task m k = record m { sharded_status = Store.remove_status py m.sharded_status k }

  unfoldable pub resize_shards : TaskStatusManager R → ℕ → Bool × TaskStatusManager R
  resize_shards m n =
      let (success, s) = Store.resize_shards py m.sharded_status n in
      if ltb n 1
      then (false, m)
      else (if eqb n m.sharded_status.shard_count
          then (true, m)
          else (success, record m { sharded_status = s }))
