-- ===== src/CleanupThread/Errors.antt =====
-- What the clean-up thread makes of exceptions.
use fish_async_task.Prelude.{
  ℕ, suc, ◌+◌, ◌≤◌, ◌≡◌, refl, sym, ◌∙◌, ◌*◌, Bool, false, none, some, List, [], ◌∷◌, arith,
  Bool-cases, inl, inr, ◌⊎◌,
}
use fish_async_task.CleanupThread.{
  max_consecutive_errors, wait_with_interrupt_check, Outcome, cleaned, keyboard_interrupt,
  system_exit, other_exit, io_error, programming_error, other_error, Fate, runs_on, stopped, exited,
  LoopState, after_call, ends, note_readings, cleanup_loop,
}

-- The first call that ends the thread decides how: an interrupt stops it, an exit is raised again.
abbrev pub fate_of : List Outcome → Fate
fate_of [] = runs_on
fate_of (cleaned n ∷ os) = fate_of os
fate_of (keyboard_interrupt ∷ os) = stopped
fate_of (system_exit ∷ os) = exited
fate_of (other_exit ∷ os) = exited
fate_of (io_error ∷ os) = fate_of os
fate_of (programming_error ∷ os) = fate_of os
fate_of (other_error ∷ os) = fate_of os

-- The calls up to that one.
abbrev pub calls_of : List Outcome → ℕ
calls_of [] = 0
calls_of (cleaned n ∷ os) = suc (calls_of os)
calls_of (keyboard_interrupt ∷ os) = 1
calls_of (system_exit ∷ os) = 1
calls_of (other_exit ∷ os) = 1
calls_of (io_error ∷ os) = suc (calls_of os)
calls_of (programming_error ∷ os) = suc (calls_of os)
calls_of (other_error ∷ os) = suc (calls_of os)

-- Whether a call raises an exception that the loop counts.
abbrev pub counted : Outcome → ℕ
counted (cleaned n) = 0
counted keyboard_interrupt = 0
counted system_exit = 0
counted other_exit = 0
counted io_error = 1
counted programming_error = 1
counted other_error = 1

abbrev pub unexpected : Outcome → ℕ
unexpected (cleaned n) = 0
unexpected keyboard_interrupt = 0
unexpected system_exit = 0
unexpected other_exit = 0
unexpected io_error = 0
unexpected programming_error = 0
unexpected other_error = 1

abbrev pub sum_of : (Outcome → ℕ) → List Outcome → ℕ
sum_of f [] = 0
sum_of f (o ∷ os) = f o + sum_of f os

-- The errors that the warnings stand for, and those counted since.
abbrev pub weight : LoopState → ℕ
weight s = max_consecutive_errors * s.too_many_warnings + s.consecutive_errors

-- Either the thread has made the calls that the outcomes tell, and ended or runs on as they tell,
-- or it stopped, and its last reading found the event cleared.
pub record Described (is_set : ℕ → Bool) (os : List Outcome) (s : LoopState) (r : Fate × LoopState)
    : Type 0 where
  pub ended :
      ((r.0 ≡ fate_of os) × (r.1.calls ≡ s.calls + calls_of os))
      ⊎ ((k : ℕ) × (r.1.readings ≡ suc k) × (is_set k ≡ false) × (r.0 ≡ stopped))
  pub paid : weight r.1 ≤ weight s + sum_of counted os
  pub warned : r.1.too_many_warnings ≤ s.too_many_warnings + sum_of unexpected os

-- A call is counted, its weight is at most that of its error, and only an unexpected one warns.
record Noted (o : Outcome) (s s' : LoopState) : Type 0 where
  calls : s'.calls ≡ suc s.calls
  paid : weight s' ≤ weight s + counted o
  warned : s'.too_many_warnings ≤ s.too_many_warnings + unexpected o

after_call-Noted : (o : Outcome) (s : LoopState) → Noted o s (after_call o s)
unfolding after_call
after_call-Noted (cleaned n) s = record { calls = refl; paid = omega arith; warned = omega arith }
after_call-Noted keyboard_interrupt s = record {
  calls = refl;
  paid = omega arith;
  warned = omega arith;
}
after_call-Noted system_exit s = record { calls = refl; paid = omega arith; warned = omega arith }
after_call-Noted other_exit s = record { calls = refl; paid = omega arith; warned = omega arith }
after_call-Noted io_error s = record { calls = refl; paid = omega arith; warned = omega arith }
after_call-Noted programming_error s = record {
  calls = refl;
  paid = omega arith;
  warned = omega arith;
}
after_call-Noted other_error s = record {
  calls = ground arith;
  paid = ground arith;
  warned = ground arith;
}

module _ (is_set : ℕ → Bool) where
  -- The thread goes on after the first call.
  goes_on :
      (o : Outcome) (os : List Outcome) (s s' : LoopState) (r : Fate × LoopState)
      → fate_of (o ∷ os) ≡ fate_of os
      → calls_of (o ∷ os) ≡ suc (calls_of os)
      → Noted o s s'
      → Described is_set os s' r
      → Described is_set (o ∷ os) s r
  goes_on o os s s' r f c n d = record {
    ended = elim d.ended [
      | inl (fate, calls) ↦ inl (fate ∙ sym f, omega (arith, calls, c, n.calls))
      | inr cleared ↦ inr cleared
    ];
    paid = omega (arith, n.paid, d.paid);
    warned = omega (arith, n.warned, d.warned);
  }

  -- The first call ends it.
  ends_here :
      (o : Outcome) (os : List Outcome) (s s' : LoopState) (fate : Fate)
      → fate_of (o ∷ os) ≡ fate
      → calls_of (o ∷ os) ≡ 1
      → Noted o s s'
      → Described is_set (o ∷ os) s (fate, s')
  ends_here o os s s' fate f c n = record {
    ended = inl (sym f, omega (arith, c, n.calls));
    paid = omega (arith, n.paid);
    warned = omega (arith, n.warned);
  }

  -- The event is found cleared.
  cleared :
      (os : List Outcome) (s s' : LoopState) (k : ℕ)
      → is_set k ≡ false
      → s'.readings ≡ suc k
      → s'.consecutive_errors ≡ s.consecutive_errors
      → s'.too_many_warnings ≡ s.too_many_warnings
      → Described is_set os s (stopped, s')
  cleared os s s' k off last e w = record {
    ended = inr (k, last, off, refl);
    paid = omega (arith, e, w);
    warned = omega (arith, w);
  }

module _ (is_set : ℕ → Bool) (cleanup_interval : ℕ) where
  -- The wait that is cut short has found the event cleared.
  interrupted :
      (n : ℕ)
      → (wait_with_interrupt_check is_set cleanup_interval n).0 ≡ false
      → (k : ℕ) × ((wait_with_interrupt_check is_set cleanup_interval n).1.readings ≡ suc k)
        × (is_set k ≡ false)
  unfolding wait_with_interrupt_check
  interrupted n h = (_, refl, h)

  -- What follows a call.
  called :
      (o : Outcome) (os : List Outcome) (s s' : LoopState) (rest : Fate × LoopState)
      → Noted o s s'
      → Described is_set os s' rest
      → Described is_set (o ∷ os) s (elim (ends o) [ none ↦ rest | some fate ↦ (fate, s') ])
  called (cleaned n) os s s' rest n' d = goes_on is_set (cleaned n) os s s' rest refl refl n' d
  called keyboard_interrupt os s s' rest n d =
      ends_here is_set keyboard_interrupt os s s' stopped refl refl n
  called system_exit os s s' rest n d = ends_here is_set system_exit os s s' exited refl refl n
  called other_exit os s s' rest n d = ends_here is_set other_exit os s s' exited refl refl n
  called io_error os s s' rest n d = goes_on is_set io_error os s s' rest refl refl n d
  called programming_error os s s' rest n d =
      goes_on is_set programming_error os s s' rest refl refl n d
  called other_error os s s' rest n d = goes_on is_set other_error os s s' rest refl refl n d

  -- The readings do not matter here.
  without_readings :
      (os : List Outcome) (s : LoopState) (r : Fate × LoopState)
      → Described is_set os (note_readings is_set cleanup_interval s) r
      → Described is_set os s r
  without_readings os s r d = record { ended = d.ended; paid = d.paid; warned = d.warned }

  -- Whatever the event reads and whatever the calls of the clean-up function come to: the thread
  -- ends by the first call that is interrupted or exits, and by no other error, and makes all calls
  -- up to that one, or else it stops and the last reading it made found the event cleared. Ten
  -- times the number of warnings about too many errors, with the errors counted since, grows by at
  -- most the number of errors that the calls raise, and the number of warnings by at most that of
  -- the unexpected ones among them.
  pub cleanup_loop-Described :
      (os : List Outcome) (s : LoopState)
      → Described is_set os s (cleanup_loop is_set cleanup_interval os s)
  unfolding cleanup_loop
  cleanup_loop-Described [] s = record {
    ended = inl (refl, omega arith);
    paid = omega arith;
    warned = omega arith;
  }
  cleanup_loop-Described (o ∷ os) s = elim (Bool-cases (is_set s.readings)) [
    | inr off ↦ rw off (
        cleared is_set (o ∷ os) s (record s { readings = suc s.readings }) s.readings off refl refl
          refl)
    | inl on ↦
        let s0 = note_readings is_set cleanup_interval s in
        elim (Bool-cases (wait_with_interrupt_check is_set cleanup_interval (suc s.readings)).0) [
          | inr short ↦
              let (k, last, off) = interrupted (suc s.readings) short in
              rw (on, short) (cleared is_set (o ∷ os) s s0 k off last refl refl)
          | inl waited ↦
              rw (on, waited)
                (without_readings (o ∷ os) s
                  (elim (ends o) [
                    | none ↦ cleanup_loop is_set cleanup_interval os (after_call o s0)
                    | some fate ↦ (fate, after_call o s0)
                  ])
                  (called o os s0 (after_call o s0)
                    (cleanup_loop is_set cleanup_interval os (after_call o s0))
                    (after_call-Noted o s0) (cleanup_loop-Described os (after_call o s0))))
        ]
  ]
