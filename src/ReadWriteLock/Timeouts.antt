-- ===== src/ReadWriteLock/Timeouts.antt =====
-- A writer that runs into its timeout.
use fish_async_task.Prelude.{
  ℕ, suc, ◌≡◌, refl, ◌∙◌, true, false, some, arith, set, count, count-set, get_elem?-set,
  get_elem?_in_range,
}
use fish_async_task.Prelude.Int.{pos}
use fish_async_task.ReadWriteLock.{
  withdraw, recover, Phase, idle, failing, System, awaits, phase_of, moved, Step, begins_read,
  ends_read, announces, waits, begins_write, declines, times_out, recovers, ends_write,
  reads_anyway, leaves_read, writes_anyway, leaves_write, Reach, start, later,
}
use fish_async_task.ReadWriteLock.Claims.{claims, awaits-claims, Reach-Counted}

Step-untimely : (s t : System) → Step true true s t → Step false true s t
Step-untimely s t (begins_read i there free open_) = begins_read i there free open_
Step-untimely s t (ends_read i there free) = ends_read i there free
Step-untimely s t (announces i there free) = announces i there free
Step-untimely s t (waits i p there a free wait) = waits i p there a free wait
Step-untimely s t (begins_write i p there a free open_) = begins_write i p there a free open_
Step-untimely s t (declines i p there a free) = declines i p there a free
Step-untimely s t (times_out i p late there a free) = times_out i p refl there a free
Step-untimely s t (recovers i there free) = recovers i there free
Step-untimely s t (ends_write i there) = ends_write i there
Step-untimely s t (reads_anyway i patient there free wait) = absurd (ground arith)
Step-untimely s t (leaves_read i patient there free) = absurd (ground arith)
Step-untimely s t (writes_anyway i p patient there a free) = absurd (ground arith)
Step-untimely s t (leaves_write i patient there free) = absurd (ground arith)

Reach-untimely : (n : ℕ) (s : System) → Reach true true n s → Reach false true n s
Reach-untimely n _ start = start
Reach-untimely n t (later {s} r st) = later (Reach-untimely n s r) (Step-untimely s t st)

abbrev given_up : System → ℕ → System
given_up s i = moved s i (withdraw s.lock) failing

abbrev recovered : System → ℕ → System
recovered s i = moved (given_up s i) i (recover (withdraw s.lock)) idle

now_failing :
    (s : System) (i : ℕ) (p : Phase)
    → phase_of s i ≡ some p
    → phase_of (given_up s i) i ≡ some failing
now_failing s i p there =
    get_elem?-set s.threads i i failing ∙ ground (arith, get_elem?_in_range s.threads i p there)

-- Where each context has a positive timeout, no writer has timed out so far, two or more have
-- announced a write, and one of them waits while no writer is inside, this one may run into a
-- `TimeoutError`. Then `_writers_waiting` goes down by two, and from then on is one below the
-- number of the writers that still wait.
pub timeout_counted_twice :
    (n : ℕ) (s : System) (i : ℕ) (p : Phase) (k : ℕ)
    → Reach true true n s
    → phase_of s i ≡ some p
    → awaits p ≡ true
    → s.lock.kept ≡ false
    → count claims s.threads ≡ suc (suc k)
    → (t : System) × Reach false true n t
      × (t.lock.writers_waiting ≡ pos k)
      × (count claims t.threads ≡ suc k)
unfolding withdraw recover
timeout_counted_twice n s i p k r there a free two =
    let v = Reach-Counted n s r in
    let f = now_failing s i p there in
    let first = count-set claims s.threads i p failing there in
    let second = count-set claims (set s.threads i failing) i failing idle f in
    (
      recovered s i,
      later (later (Reach-untimely n s r) (times_out i p refl there a free)) (recovers i f free),
      ground (arith, v.claimed),
      ground (arith, awaits-claims p a, first, second),
    )
