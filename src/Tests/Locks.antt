-- ===== src/Tests/Locks.antt =====
-- Three threads at a lock: two writers have announced themselves.
use fish_async_task.Prelude.{◌≡◌, refl, true, count}
use fish_async_task.Prelude.Int.{pos}
use fish_async_task.ReadWriteLock.{
  queued, writing, System, init, announce_write, enter_write, moved, announces, begins_write, Reach,
  start, later, withdraw, writing_anyway, read_must_wait, new, write_must_wait,
}
use fish_async_task.ReadWriteLock.Exclusion.{Alone, writer-Alone}
use fish_async_task.ReadWriteLock.Claims.{claims, writers_first}

abbrev one_queued : System
one_queued = moved (init 3) 0 (announce_write (init 3).lock) queued

abbrev two_queued : System
two_queued = moved one_queued 2 (announce_write one_queued.lock) queued

abbrev one_writes : System
one_writes = moved two_queued 0 (enter_write two_queued.lock) writing

two_queued-Reach : Reach true true 3 two_queued
unfolding announce_write new
two_queued-Reach = later (later start (announces 0 refl refl)) (announces 2 refl refl)

one_writes-Reach : Reach true true 3 one_writes
unfolding announce_write new write_must_wait
one_writes-Reach = later two_queued-Reach (begins_write 0 queued refl refl refl refl)

writer-Alone_example : Alone one_writes 0
writer-Alone_example = writer-Alone true 3 one_writes 0 one_writes-Reach refl

writers_first_example :
    (one_writes.lock.writers_waiting ≡ pos (count claims one_writes.threads))
    × (read_must_wait one_writes.lock ≡ true)
writers_first_example = writers_first 3 one_writes 2 queued one_writes-Reach refl refl

-- The context of thread 0 is refused, and its block runs.
abbrev refused : System
refused = moved one_queued 0 (withdraw one_queued.lock) writing_anyway
