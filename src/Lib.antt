-- ===== src/Lib.antt =====
-- FishAsyncTask runs functions as tasks on a pool of threads: a task is submitted, queued, executed
-- by a worker, and its status is kept in a sharded store until it expires. This library models the
-- components that keep state around the execution, each from its own source file, below
-- fish_async_task/:
--
--   PriorityQueue.antt: `PrioritizedTask` and `PriorityTaskQueue` of performance/priority_queue.py,
--     a heap of tasks with a set of their ids. PriorityQueue/Manager.antt: `PriorityTaskManager`, which
--     puts a queue together with the dict of the pending tasks.
--   Dependencies.antt: `TaskDependencyManager` of performance/priority_queue.py. Its search for
--     cycles is in Dependencies/Cycles.antt.
--   Status.antt: types.py. Status/Store.antt: `ShardedTaskStatusWithExpiry` of task_status.py, with
--     its clean-up in Status/Store/Cleanup.antt and its limit on the number of tasks in
--     Status/Store/Limit.antt. Status/Merge.antt and Status/Manager.antt:
--     `TaskStatusManager` of task_status.py, which merges updates and writes them to that store.
--     Status/Batch.antt: its batching, with the `BatchedStatusUpdater` of the same file.
--   ReadWriteLock.antt: `ReadWriteLock` and `ReadWriteLockContext` of task_status.py, as a step
--     relation over any number of threads.
--   Workers.antt: `WorkerManager` of worker/core.py. Executor.antt and its children: `TaskExecutor`
--     of worker/executor.py, which queues the updates of an execution and sends them to the status
--     manager in batches of its own.
--   TaskManager.antt: `TaskManager` of task_manager.py, which ties the pool, the executor and the
--     status manager together: the steps of callers and workers, in any order.
--     The dict of instances is in TaskManager/Instances.antt, the threads that ask for one at the same
--     time in TaskManager/Instances/Racing.antt.
--   CleanupThread.antt: `CleanupThreadManager` of cleanup.py, which calls the clean-up of the store at
--     an interval.
--   PriorityCleanup.antt: `TaskStatusWithExpiry` of performance/priority_cleanup.py, the store and the
--     heap of Status/Store.antt without shards.
--   Monitoring.antt: `PerformanceMetrics` of performance/monitoring.py; Monitoring/Health.antt:
--     `SystemHealthMonitor` of the same file, which judges those counters.
--   Config.antt: `ConfigLoader` of config.py and the loaders of other files that read the environment;
--     Config/HotReload.antt: `HotReloadConfig` and `validate_config`; Config/Floats.antt: `float`.
--   Updater.antt: `BatchedStatusUpdater` of performance/batch_updater.py.
--   Sharded.antt: `ShardedTaskStatus` of performance/sharded_status.py.
--   Cancellation.antt: performance/task_cancellation.py.
--   Resources.antt: `TaskResourceManager` of performance/resource_manager.py; its
--     `TimeoutTaskTracker` is in Resources/Tracker.antt.
--   Scaling.antt: `AdaptiveWorkerManager` of worker/adaptive.py. AdaptiveScaling.antt: the class of
--     the same name of performance/adaptive_scaling.py.
--   Prelude.antt and its children: lists, tests, dicts, sets of strings and integers as Python has
--     them. Tests.antt: concrete queues, stores and managers on which the theorems are tried.
--
-- An operation is a function from the state to the state and the result, with the name of the
-- method. A method that holds its lock from beginning to end is one step. Where a lock is given up
-- in between, as in a wait, in `resize_shards`, in the test of `_closed`, between the read and
-- the write of a status, around the call of a task's function and between the queue and the status
-- in `submit_task`, the operation is cut there: what the other threads do is an argument, or
-- the halves are functions of their own. Exceptions are values. A Python dict is the list of its
-- items, a set of strings a list without repetitions as far as the operations make it; no theorem
-- depends on the order in which a set is walked. Times are numbers of ticks; `time.time()`, a drawn
-- uuid and the end of a wait are arguments. Python's `heapq`, `hash`, MD5 and the comparison of
-- strings are parameters, `heapq` with its documented contract (Prelude/Heapq.antt), which sorted
-- lists meet.
--
-- Fuel: the search for cycles has as much as there are names in the graph, and one more, since
-- each call marks another name (Dependencies/Cycles/Fuel.antt); a sweep of a shard has the length
-- of its heap, of which each round takes one entry; the wait of the clean-up thread has the
-- interval, of which each round takes a part; the loop of `check_cancelled_periodically` has
-- fuel since it need not end. Python's limit on the depth of a recursion is not modelled.
--
-- Not modelled: `get_ready_tasks` of the dependencies, which calls `is_ready` with the lock held that
-- `is_ready` waits for; the wait for threads to end and the cleanup callbacks of worker/, which change no
-- state of the tasks; the averages and the statistics of the worker managers, and what psutil
-- measures; the logging; the rounding of floats, of which Config/Floats.antt has the comparisons;
-- _adapters.py, whose classes pass every call on, and the Rust crate behind some of them (_rust.py),
-- which is another program; the scripts, benchmarks and examples beside the package.
mod Prelude
pub mod PriorityCleanup
pub mod PriorityQueue
pub mod Dependencies
pub mod Status
pub mod Updater
pub mod Sharded
pub mod Cancellation
pub mod Scaling
pub mod AdaptiveScaling
pub mod ReadWriteLock
pub mod Workers
pub mod Executor
pub mod Resources
pub mod Monitoring
pub mod CleanupThread
pub mod Config
pub mod TaskManager
pub mod Tests
