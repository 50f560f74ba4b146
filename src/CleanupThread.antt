-- ===== src/CleanupThread.antt =====
-- `CleanupThreadManager` of fish_async_task/cleanup.py. Times are counted in tenths of a second, so
-- that the check interval is whole; that Python adds them with rounding is not modelled. What
-- `_running_event.is_set()` reads, one reading after the other, is a parameter, and so is what each
-- call of the clean-up function comes to.
pub mod Waiting
pub mod Errors
use fish_async_task.Prelude.{
  ℕ, zero, suc, ◌+◌, ◌-◌, ◌*◌, Bool, true, false, ◌&&◌, Option, none, some, List, [], ◌∷◌, ltb, leb,
  if◌then◌else◌,
}

-- `min`
abbrev pub smaller : ℕ → ℕ → ℕ
smaller a b = if leb a b then a else b

-- The constants, `cleanup_interval` in tenths of a second, and the check interval, the smaller of
-- one second and a tenth of the interval.
abbrev pub tenths : (seconds : ℕ) → ℕ
tenths seconds = 10 * seconds

abbrev pub check_interval : (cleanup_interval : ℕ) → ℕ
check_interval cleanup_interval = smaller (tenths 1) cleanup_interval

abbrev pub max_consecutive_errors : ℕ
max_consecutive_errors = 10

-- Where the `while` loop of the wait ended: how long it had waited, and how many readings of the
-- event it had made.
pub record Waited : Type 0 where
  pub waited : ℕ
  pub readings : ℕ

module _ (is_set : ℕ → Bool) (interval chunk : ℕ) where
  -- The event is read only while there is time left.
  unfoldable pub wait : (fuel : ℕ) → Waited → Waited
  wait zero w = w
  wait (suc fuel) w =
      let rest = wait fuel (record {
        waited = w.waited + smaller chunk (interval - w.waited);
        readings = suc w.readings;
      }) in
      if ltb w.waited interval
      then (if is_set w.readings then rest else record w { readings = suc w.readings })
      else w

-- `_wait_with_interrupt_check`: each round waits at least a tenth of a second, so that the interval
-- is fuel enough. The event is read once more at the end.
unfoldable pub wait_with_interrupt_check :
    (is_set : ℕ → Bool) (cleanup_interval : ℕ) (readings : ℕ) → Bool × Waited
unfolding wait
wait_with_interrupt_check is_set cleanup_interval readings =
    let w =
      wait is_set (tenths cleanup_interval) (check_interval cleanup_interval)
        (tenths cleanup_interval) (record { waited = 0; readings = readings }) in
    (is_set w.readings, record w { readings = suc w.readings })

-- What a call of the clean-up function comes to: its result, or what it raises. `other_exit` is any
-- further `BaseException` that is no `Exception`, which no `except` of the loop takes; an exception
-- that is raised outside of the call is not modelled.
pub data Outcome : Type 0 where
  cleaned : (count : ℕ) → Outcome
  keyboard_interrupt system_exit other_exit io_error programming_error other_error : Outcome

-- How the thread ended, or that it runs on after the calls that are given.
pub data Fate : Type 0 where
  stopped exited runs_on : Fate

pub record LoopState : Type 0 where
  pub consecutive_errors : ℕ
  pub too_many_warnings : ℕ
  pub calls : ℕ
  pub readings : ℕ

-- The `except` branches for exceptions after which the loop goes on, and the branch without one.
unfoldable pub after_call : Outcome → LoopState → LoopState
after_call (cleaned n) s = record s { consecutive_errors = 0; calls = suc s.calls }
after_call keyboard_interrupt s = record s { calls = suc s.calls }
after_call system_exit s = record s { calls = suc s.calls }
after_call other_exit s = record s { calls = suc s.calls }
after_call io_error s = record s {
  consecutive_errors = suc s.consecutive_errors;
  calls = suc s.calls;
}
after_call programming_error s = record s {
  consecutive_errors = suc s.consecutive_errors;
  calls = suc s.calls;
}
after_call other_error s =
    if leb max_consecutive_errors (suc s.consecutive_errors)
    then record s {
      consecutive_errors = 0;
      too_many_warnings = suc s.too_many_warnings;
      calls = suc s.calls;
    }
    else record s { consecutive_errors = suc s.consecutive_errors; calls = suc s.calls }

-- Whether the call ends the loop.
abbrev pub ends : Outcome → Option Fate
ends (cleaned n) = none
ends keyboard_interrupt = some stopped
ends system_exit = some exited
ends other_exit = some exited
ends io_error = none
ends programming_error = none
ends other_error = none

module _ (is_set : ℕ → Bool) (cleanup_interval : ℕ) where
  -- One round of the `while` loop is a reading of the event, the wait and, where this was not cut
  -- short, the call.
  abbrev pub note_readings : LoopState → LoopState
  note_readings s = record s {
    readings = (wait_with_interrupt_check is_set cleanup_interval (suc s.readings)).1.readings;
  }

  -- `_cleanup_loop`, for the calls that are given.
  unfoldable pub cleanup_loop : List Outcome → LoopState → Fate × LoopState
  unfolding after_call wait_with_interrupt_check
  cleanup_loop [] s = (runs_on, s)
  cleanup_loop (o ∷ os) s =
      let s' = after_call o (note_readings s) in
      let rest = cleanup_loop os s' in
      if is_set s.readings
      then (if (wait_with_interrupt_check is_set cleanup_interval (suc s.readings)).0
          then elim (ends o) [ none ↦ rest | some fate ↦ (fate, s') ]
          else (stopped, note_readings s))
      else (stopped, record s { readings = suc s.readings })
