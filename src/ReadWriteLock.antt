-- ===== src/ReadWriteLock.antt =====
-- `ReadWriteLock` and `ReadWriteLockContext` of fish_async_task/task_status.py: a state machine of
-- any number of threads. Its condition stands on an `RLock`, which a writer keeps from the end of
-- `acquire_write` to `release_write`; every other access takes it for one block, which is one step
-- and runs only while no writer keeps it. When a wait or a timeout ends is left open: a waiting
-- thread may go on, or give up, at any time. A thread reads or writes through
-- `ReadWriteLockContext`, or calls the lock itself and looks at the answer. The context does not
-- look at it: with a timeout of 0 or less it may run its block without the lock, and then releases
-- what it has not acquired.
pub mod Invariant
pub mod Exclusion
pub mod Claims
pub mod Timeouts
use fish_async_task.Prelude.{
  ℕ, zero, suc, ◌+◌, ◌≡◌, Bool, true, false, Option, none, some, List, [], ◌∷◌, if◌then◌else◌,
  length, get_elem?, set, replicate, count,
}
use fish_async_task.Prelude.Int.{ℤ, pos, negsuc, succ_int, pred_int, positive}

-- `_readers`, `_writers_waiting`, and whether a writer keeps the underlying lock.
pub record ReadWriteLock : Type 0 where
  pub readers : ℤ
  pub writers_waiting : ℤ
  pub kept : Bool

-- `__init__`
unfoldable pub new : ReadWriteLock
new = record { readers = pos 0; writers_waiting = pos 0; kept = false }

-- `acquire_read`, the test of its loop and what follows: a reader waits while a writer does.
unfoldable pub read_must_wait : ReadWriteLock → Bool
read_must_wait l = positive l.writers_waiting

unfoldable pub enter_read : ReadWriteLock → ReadWriteLock
enter_read l = record l { readers = succ_int l.readers }

-- `release_read`
unfoldable pub release_read : ReadWriteLock → ReadWriteLock
release_read l = record l { readers = pred_int l.readers }

-- The first block of `acquire_write`.
unfoldable pub announce_write : ReadWriteLock → ReadWriteLock
announce_write l = record l { writers_waiting = succ_int l.writers_waiting }

-- The test of its loop, and its end with the underlying lock kept.
unfoldable pub write_must_wait : ReadWriteLock → Bool
write_must_wait l = positive l.readers

unfoldable pub enter_write : ReadWriteLock → ReadWriteLock
enter_write l = record l { kept = true }

-- `self._writers_waiting -= 1` where a wait ends without the lock.
unfoldable pub withdraw : ReadWriteLock → ReadWriteLock
withdraw l = record l { writers_waiting = pred_int l.writers_waiting }

-- The `except` clause, which every `TimeoutError` runs through after the `withdraw`.
unfoldable pub recover : ReadWriteLock → ReadWriteLock
recover l =
    if positive l.writers_waiting
    then record l { writers_waiting = pred_int l.writers_waiting }
    else l

-- `release_write` of a thread that has not acquired the lock: the count goes down, and the release
-- of the underlying lock raises a `RuntimeError`.
unfoldable pub release_unheld : ReadWriteLock → ReadWriteLock
release_unheld l = record l { writers_waiting = pred_int l.writers_waiting }

-- `release_write`
unfoldable pub release_write : ReadWriteLock → ReadWriteLock
release_write l = record l { writers_waiting = pred_int l.writers_waiting; kept = false }

-- Where a thread stands: outside of the lock; between the two ends of a read; in `acquire_write`,
-- announced and not yet at the loop; waiting in the loop; on the way to the `except` clause;
-- between the two ends of a write; in the block of a context whose read, or write, was refused.
pub data Phase : Type 0 where
  idle reading queued waiting failing writing reading_anyway writing_anyway : Phase

pub record System : Type 0 where
  pub lock : ReadWriteLock
  pub threads : List Phase

abbrev pub init : ℕ → System
init n = record { lock = new; threads = replicate n idle }

-- Announced, and without the lock.
abbrev pub awaits : Phase → Bool
awaits idle = false
awaits reading = false
awaits queued = true
awaits waiting = true
awaits failing = false
awaits writing = false
awaits reading_anyway = false
awaits writing_anyway = false

abbrev pub phase_of : System → ℕ → Option Phase
phase_of s i = get_elem? s.threads i

abbrev pub moved : System → ℕ → ReadWriteLock → Phase → System
moved s i l p = record { lock = l; threads = set s.threads i p }

-- One step of one thread. `timely` tells that no writer runs into a `TimeoutError`, `patient` that
-- each context has a positive timeout, as the default is, so that it is never refused.
pub data Step (timely patient : Bool) (s : System) : System → Type 0 where
  begins_read :
      (i : ℕ)
      → phase_of s i ≡ some idle
      → s.lock.kept ≡ false
      → read_must_wait s.lock ≡ false
      → Step timely patient s (moved s i (enter_read s.lock) reading)
  ends_read :
      (i : ℕ)
      → phase_of s i ≡ some reading
      → s.lock.kept ≡ false
      → Step timely patient s (moved s i (release_read s.lock) idle)
  announces :
      (i : ℕ)
      → phase_of s i ≡ some idle
      → s.lock.kept ≡ false
      → Step timely patient s (moved s i (announce_write s.lock) queued)
  waits :
      (i : ℕ) (p : Phase)
      → phase_of s i ≡ some p
      → awaits p ≡ true
      → s.lock.kept ≡ false
      → write_must_wait s.lock ≡ true
      → Step timely patient s (moved s i s.lock waiting)
  begins_write :
      (i : ℕ) (p : Phase)
      → phase_of s i ≡ some p
      → awaits p ≡ true
      → s.lock.kept ≡ false
      → write_must_wait s.lock ≡ false
      → Step timely patient s (moved s i (enter_write s.lock) writing)
  declines :
      (i : ℕ) (p : Phase)
      → phase_of s i ≡ some p
      → awaits p ≡ true
      → s.lock.kept ≡ false
      → Step timely patient s (moved s i (withdraw s.lock) idle)
  times_out :
      (i : ℕ) (p : Phase)
      → timely ≡ false
      → phase_of s i ≡ some p
      → awaits p ≡ true
      → s.lock.kept ≡ false
      → Step timely patient s (moved s i (withdraw s.lock) failing)
  recovers :
      (i : ℕ)
      → phase_of s i ≡ some failing
      → s.lock.kept ≡ false
      → Step timely patient s (moved s i (recover s.lock) idle)
  ends_write :
      (i : ℕ)
      → phase_of s i ≡ some writing
      → Step timely patient s (moved s i (release_write s.lock) idle)
  reads_anyway :
      (i : ℕ)
      → patient ≡ false
      → phase_of s i ≡ some idle
      → s.lock.kept ≡ false
      → read_must_wait s.lock ≡ true
      → Step timely patient s (moved s i s.lock reading_anyway)
  leaves_read :
      (i : ℕ)
      → patient ≡ false
      → phase_of s i ≡ some reading_anyway
      → s.lock.kept ≡ false
      → Step timely patient s (moved s i (release_read s.lock) idle)
  writes_anyway :
      (i : ℕ) (p : Phase)
      → patient ≡ false
      → phase_of s i ≡ some p
      → awaits p ≡ true
      → s.lock.kept ≡ false
      → Step timely patient s (moved s i (withdraw s.lock) writing_anyway)
  leaves_write :
      (i : ℕ)
      → patient ≡ false
      → phase_of s i ≡ some writing_anyway
      → s.lock.kept ≡ false
      → Step timely patient s (moved s i (release_unheld s.lock) idle)

pub data Reach (timely patient : Bool) (n : ℕ) : System → Type 0 where
  start : Reach timely patient n (init n)
  later :
      {s t : System} → Reach timely patient n s → Step timely patient s t → Reach timely patient n t
