-- ===== src/CleanupThread/Waiting.antt =====
-- The wait between two clean-ups: it ends, and why.
use fish_async_task.Prelude.{
  ℕ, zero, suc, ◌+◌, ◌-◌, ◌≤◌, ◌<◌, ◌≡◌, refl, ◌⊎◌, inl, inr, Bool, true, false, arith, ltb,
  Bool-cases,
}
use fish_async_task.CleanupThread.{
  smaller, tenths, check_interval, Waited, wait, wait_with_interrupt_check,
}

-- From `w` on, the whole interval was waited, or the last reading found the event cleared; all
-- readings before the last found it set.
pub record Ends (is_set : ℕ → Bool) (interval : ℕ) (w r : Waited) : Type 0 where
  pub in_time : r.waited ≤ interval
  pub later : w.readings ≤ r.readings
  pub reason : (r.waited ≡ interval) ⊎ ((k : ℕ) × (r.readings ≡ suc k) × (is_set k ≡ false))
  pub unbroken : (j : ℕ) → w.readings ≤ j → suc j < r.readings → is_set j ≡ true

step :
    (chunk interval waited : ℕ)
    → 0 < chunk
    → waited < interval
    → 0 < smaller chunk (interval - waited)
step chunk interval waited c h = ground arith

set_ext : (is_set : ℕ → Bool) (j k : ℕ) → j ≡ k → is_set j ≡ is_set k
set_ext is_set j k e = λ i. is_set (e i)

module _ (is_set : ℕ → Bool) (interval chunk : ℕ) where
  wait-Ends :
      (fuel : ℕ) (w : Waited)
      → 0 < chunk
      → w.waited ≤ interval
      → interval ≤ w.waited + fuel
      → Ends is_set interval w (wait is_set interval chunk fuel w)
  unfolding wait
  wait-Ends zero w c h f = record {
    in_time = h;
    later = omega arith;
    reason = inl (omega arith);
    unbroken = λ j a b. absurd (omega arith);
  }
  wait-Ends (suc fuel) w c h f = elim (Bool-cases (ltb w.waited interval)) [
    | inr over ↦ rw over (record {
      in_time = h;
      later = omega arith;
      reason = inl (ground arith);
      unbroken = λ j a b. absurd (omega arith);
    })
    | inl more ↦ elim (Bool-cases (is_set w.readings)) [
      | inr cleared ↦
          rw (more, cleared)
            (record {
              in_time = h;
              later = omega arith;
              reason = inr (w.readings, refl, cleared);
              unbroken = λ j a b. absurd (omega arith);
            })
      | inl running ↦
          let slept : ℕ = smaller chunk (interval - w.waited) in
          let w' : Waited = record { waited = w.waited + slept; readings = suc w.readings } in
          let some_time = step chunk interval w.waited c (ground arith) in
          let r = wait-Ends fuel w' c (ground arith) (omega (arith, some_time)) in
          rw (more, running)
            (record {
              in_time = r.in_time;
              later = omega (arith, r.later);
              reason = r.reason;
              unbroken =
                  λ j a b. ground (arith, r.unbroken j, running, set_ext is_set j w.readings);
            })
    ]
  ]

-- The wait ends, after the whole interval or at the first reading that finds the event cleared; its
-- answer is what the event reads then.
pub wait_with_interrupt_check-Ends :
    (is_set : ℕ → Bool) (cleanup_interval readings : ℕ)
    → (w : Waited) × (wait_with_interrupt_check is_set cleanup_interval readings
        ≡ (is_set w.readings, record w { readings = suc w.readings }))
      × Ends is_set (tenths cleanup_interval) (record { waited = 0; readings = readings }) w
unfolding wait_with_interrupt_check wait
wait_with_interrupt_check-Ends is_set zero readings = (
  record { waited = 0; readings = readings },
  refl,
  record {
    in_time = omega arith;
    later = omega arith;
    reason = inl refl;
    unbroken = λ j a b. absurd (omega arith);
  },
)
wait_with_interrupt_check-Ends is_set (suc n) readings = (
  wait is_set (tenths (suc n)) (check_interval (suc n)) (tenths (suc n))
      (record { waited = 0; readings = readings }),
  refl,
  wait-Ends is_set (tenths (suc n)) (check_interval (suc n)) (tenths (suc n))
      (record { waited = 0; readings = readings }) (ground arith) (omega arith) (omega arith),
)
