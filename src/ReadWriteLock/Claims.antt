-- ===== src/ReadWriteLock/Claims.antt =====
-- The count of the waiting writers, against the threads that have announced a write and neither
-- finished nor given up.
use fish_async_task.Prelude.{
  ℕ, ◌+◌, ◌≡◌, refl, sym, ap, Bool, true, false, some, arith, if◌then◌else◌, set, count, count-set,
  count-zero, count-replicate,
}
use fish_async_task.Prelude.Int.{pos}
use fish_async_task.ReadWriteLock.{
  ReadWriteLock, new, read_must_wait, enter_read, release_read, announce_write, write_must_wait,
  enter_write, withdraw, recover, release_write, Phase, idle, reading, queued, waiting, failing,
  writing, System, awaits, phase_of, moved, Step, begins_read, ends_read, announces, waits,
  begins_write, declines, times_out, recovers, ends_write, reads_anyway, leaves_read, writes_anyway,
  leaves_write, reading_anyway, writing_anyway, Reach, start, later,
}

abbrev pub claims : Phase → Bool
claims idle = false
claims reading = false
claims queued = true
claims waiting = true
claims failing = false
claims writing = true
claims reading_anyway = false
claims writing_anyway = false

abbrev pub fails : Phase → Bool
fails idle = false
fails reading = false
fails queued = false
fails waiting = false
fails failing = true
fails writing = false
fails reading_anyway = false
fails writing_anyway = false

-- Every announced writer is counted, and none is on the way to the `except` clause.
pub record Counted (s : System) : Type 0 where
  pub claimed : s.lock.writers_waiting ≡ pos (count claims s.threads)
  pub none_fails : count fails s.threads ≡ 0

pub awaits-claims : (p : Phase) → awaits p ≡ true → claims p ≡ true
awaits-claims p h = ground arith

awaits-fails : (p : Phase) → awaits p ≡ true → fails p ≡ false
awaits-fails p h = ground arith

moved-Counted :
    (s : System) (l : ReadWriteLock) (i : ℕ) (old next : Phase)
    → phase_of s i ≡ some old
    → fails next ≡ false
    → ((k : ℕ)
        → k + (if claims old then 1 else 0)
          ≡ count claims s.threads + (if claims next then 1 else 0)
        → l.writers_waiting ≡ pos k)
    → Counted s
    → Counted (moved s i l next)
moved-Counted s l i old next there f w v = record {
  claimed = w (count claims (set s.threads i next)) (count-set claims s.threads i old next there);
  none_fails = ground (
    arith,
    v.none_fails,
    count-set fails s.threads i old next there,
    count-zero fails s.threads i old there v.none_fails,
  );
}

Step-Counted : (s t : System) → Step true true s t → Counted s → Counted t
unfolding read_must_wait enter_read release_read announce_write write_must_wait enter_write withdraw
    recover release_write
Step-Counted s t (begins_read i there free open_) v =
    moved-Counted s (enter_read s.lock) i idle reading there refl (λ k e. ground (arith, v.claimed))
      v
Step-Counted s t (ends_read i there free) v =
    moved-Counted s (release_read s.lock) i reading idle there refl
      (λ k e. ground (arith, v.claimed)) v
Step-Counted s t (announces i there free) v =
    moved-Counted s (announce_write s.lock) i idle queued there refl
      (λ k e. ground (arith, v.claimed)) v
Step-Counted s t (waits i p there a free wait) v =
    moved-Counted s s.lock i p waiting there refl
      (λ k e. ground (arith, v.claimed, awaits-claims p a)) v
Step-Counted s t (begins_write i p there a free open_) v =
    moved-Counted s (enter_write s.lock) i p writing there refl
      (λ k e. ground (arith, v.claimed, awaits-claims p a)) v
Step-Counted s t (declines i p there a free) v =
    moved-Counted s (withdraw s.lock) i p idle there refl
      (λ k e. ground (arith, v.claimed, awaits-claims p a)) v
Step-Counted s t (times_out i p late there a free) v = absurd (ground arith)
Step-Counted s t (recovers i there free) v =
    absurd (ground (arith, count-zero fails s.threads i failing there v.none_fails))
Step-Counted s t (ends_write i there) v =
    moved-Counted s (release_write s.lock) i writing idle there refl
      (λ k e. ground (arith, v.claimed)) v
Step-Counted s t (reads_anyway i patient there free wait) v = absurd (ground arith)
Step-Counted s t (leaves_read i patient there free) v = absurd (ground arith)
Step-Counted s t (writes_anyway i p patient there a free) v = absurd (ground arith)
Step-Counted s t (leaves_write i patient there free) v = absurd (ground arith)

pub Reach-Counted : (n : ℕ) (s : System) → Reach true true n s → Counted s
unfolding new
Reach-Counted n _ start = record {
  claimed = ap pos (sym (count-replicate claims n idle refl));
  none_fails = count-replicate fails n idle refl;
}
Reach-Counted n t (later {s} r st) = Step-Counted s t st (Reach-Counted n s r)

-- As long as no writer runs into a `TimeoutError`, each context has a positive timeout, and a
-- thread has announced a write and not finished it, `_writers_waiting` is the number of all such
-- threads, and every new reader waits.
pub writers_first :
    (n : ℕ) (s : System) (i : ℕ) (p : Phase)
    → Reach true true n s
    → phase_of s i ≡ some p
    → claims p ≡ true
    → (s.lock.writers_waiting ≡ pos (count claims s.threads)) × (read_must_wait s.lock ≡ true)
unfolding read_must_wait
writers_first n s i p r there c =
    let v = Reach-Counted n s r in
    (v.claimed, ground (arith, v.claimed, count-zero claims s.threads i p there))
