-- ===== src/ReadWriteLock/Invariant.antt =====
-- What the counters of the lock say of the threads, in every reachable state.
use fish_async_task.Prelude.{
  ℕ, ◌≡◌, refl, ◌∙◌, sym, ap, Bool, true, false, Bool-cases, inl, inr, some, arith, set, count,
  count-set, count-zero, count-replicate,
}
use fish_async_task.Prelude.Int.{pos}
use fish_async_task.ReadWriteLock.{
  ReadWriteLock, new, read_must_wait, enter_read, release_read, announce_write, write_must_wait,
  enter_write, withdraw, recover, release_write, Phase, idle, reading, queued, waiting, failing,
  writing, System, init, awaits, phase_of, moved, Step, begins_read, ends_read, announces, waits,
  begins_write, declines, times_out, recovers, ends_write, reads_anyway, leaves_read, writes_anyway,
  leaves_write, reading_anyway, writing_anyway, Reach, start, later,
}

abbrev pub reads : Phase → Bool
reads idle = false
reads reading = true
reads queued = false
reads waiting = false
reads failing = false
reads writing = false
reads reading_anyway = false
reads writing_anyway = false

abbrev pub writes : Phase → Bool
writes idle = false
writes reading = false
writes queued = false
writes waiting = false
writes failing = false
writes writing = true
writes reading_anyway = false
writes writing_anyway = false

-- The readers are counted, and a writer keeps the lock alone.
pub record Inv (s : System) : Type 0 where
  pub counted : s.lock.readers ≡ pos (count reads s.threads)
  pub free : s.lock.kept ≡ false → count writes s.threads ≡ 0
  pub taken : s.lock.kept ≡ true → (count writes s.threads ≡ 1) × (count reads s.threads ≡ 0)

init-Inv : (n : ℕ) → Inv (init n)
unfolding new
init-Inv n = record {
  counted = ap pos (sym (count-replicate reads n idle refl));
  free = λ h. count-replicate writes n idle refl;
  taken = λ h. ground arith;
}

awaits-reads : (p : Phase) → awaits p ≡ true → reads p ≡ false
awaits-reads p h = ground arith

awaits-writes : (p : Phase) → awaits p ≡ true → writes p ≡ false
awaits-writes p h = ground arith

-- A step that moves a thread between phases in which it neither reads nor writes.
quiet-Inv :
    (s : System) (l : ReadWriteLock) (i : ℕ) (old next : Phase)
    → phase_of s i ≡ some old
    → (reads old ≡ reads next) × (writes old ≡ writes next)
    → l.readers ≡ s.lock.readers
    → l.kept ≡ s.lock.kept
    → Inv s
    → Inv (moved s i l next)
quiet-Inv s l i old next there q r k v =
    let cr : count reads (set s.threads i next) ≡ count reads s.threads =
      ground (arith, count-set reads s.threads i old next there) in
    let cw : count writes (set s.threads i next) ≡ count writes s.threads =
      ground (arith, count-set writes s.threads i old next there) in
    record {
      counted = r ∙ v.counted ∙ ap pos (sym cr);
      free = λ h. cw ∙ v.free (sym k ∙ h);
      taken = λ h. (cw ∙ (v.taken (sym k ∙ h)).0, cr ∙ (v.taken (sym k ∙ h)).1);
    }

pub kept_by_writer : (s : System) (i : ℕ) → phase_of s i ≡ some writing → Inv s → s.lock.kept ≡ true
kept_by_writer s i there v = elim (Bool-cases s.lock.kept) [
  | inl kept ↦ kept
  | inr free ↦ absurd (ground (arith, count-zero writes s.threads i writing there (v.free free)))
]

Step-Inv : (b : Bool) (s t : System) → Step b true s t → Inv s → Inv t
unfolding read_must_wait enter_read release_read announce_write write_must_wait enter_write withdraw
    recover release_write
Step-Inv b s t (begins_read i there free open_) v =
    let r = count-set reads s.threads i idle reading there in
    let w = count-set writes s.threads i idle reading there in
    record {
      counted = ground (arith, v.counted, r);
      free = λ h. ground (arith, v.free free, w);
      taken = λ h. ground arith;
    }
Step-Inv b s t (ends_read i there free) v =
    let r = count-set reads s.threads i reading idle there in
    let w = count-set writes s.threads i reading idle there in
    record {
      counted = ground (arith, v.counted, r);
      free = λ h. ground (arith, v.free free, w);
      taken = λ h. ground arith;
    }
Step-Inv b s t (announces i there free) v =
    quiet-Inv s (announce_write s.lock) i idle queued there (refl, refl) refl refl v
Step-Inv b s t (waits i p there a free wait) v =
    quiet-Inv s s.lock i p waiting there (awaits-reads p a, awaits-writes p a) refl refl v
Step-Inv b s t (begins_write i p there a free open_) v =
    let r = count-set reads s.threads i p writing there in
    let w = count-set writes s.threads i p writing there in
    let none_reads : count reads s.threads ≡ 0 = ground (arith, v.counted) in
    record {
      counted = ground (arith, v.counted, r, awaits-reads p a);
      free = λ h. ground arith;
      taken =
          λ h. ground (arith, v.free free, w, r, awaits-reads p a, awaits-writes p a, none_reads);
    }
Step-Inv b s t (declines i p there a free) v =
    quiet-Inv s (withdraw s.lock) i p idle there (awaits-reads p a, awaits-writes p a) refl refl v
Step-Inv b s t (times_out i p timely there a free) v =
    quiet-Inv s (withdraw s.lock) i p failing there (awaits-reads p a, awaits-writes p a) refl refl
      v
Step-Inv b s t (recovers i there free) v =
    quiet-Inv s (recover s.lock) i failing idle there (refl, refl) (ground arith) (ground arith) v
Step-Inv b s t (ends_write i there) v =
    let r = count-set reads s.threads i writing idle there in
    let w = count-set writes s.threads i writing idle there in
    let alone = v.taken (kept_by_writer s i there v) in
    record {
      counted = ground (arith, v.counted, r);
      free = λ h. ground (arith, alone, w);
      taken = λ h. ground arith;
    }
Step-Inv b s t (reads_anyway i patient there free wait) v = absurd (ground arith)
Step-Inv b s t (leaves_read i patient there free) v = absurd (ground arith)
Step-Inv b s t (writes_anyway i p patient there a free) v = absurd (ground arith)
Step-Inv b s t (leaves_write i patient there free) v = absurd (ground arith)

pub Reach-Inv : (b : Bool) (n : ℕ) (s : System) → Reach b true n s → Inv s
Reach-Inv b n _ start = init-Inv n
Reach-Inv b n t (later {s} r st) = Step-Inv b s t st (Reach-Inv b n s r)
