-- ===== src/Cancellation/Waiting.antt =====
-- When `check_cancelled_periodically` returns.
use fish_async_task.Prelude.{
  ℕ, zero, suc, ◌+◌, ◌<◌, ◌≡◌, refl, subst, Bool, true, false, Option, none, some, arith,
  Bool-cases, inl, inr,
}
use fish_async_task.Cancellation.{periodic, check_cancelled_periodically}

periodic-none :
    (fuel : ℕ) (cancelled : ℕ → Bool) (asked counter interval : ℕ)
    → ((n : ℕ) → cancelled n ≡ false)
    → counter < interval
    → periodic fuel cancelled asked counter interval ≡ none
unfolding periodic
periodic-none zero cancelled asked counter interval never below = refl
periodic-none (suc fuel) cancelled asked counter interval never below = ground (
  arith,
  never asked,
  periodic-none fuel cancelled asked (suc counter) interval never,
  periodic-none fuel cancelled (suc asked) 0 interval never,
)

-- With an interval of at least one, as is the default of 100, the loop of
-- `check_cancelled_periodically` does not end as long as the event is not set: no number of rounds
-- brings a result.
pub check_cancelled_periodically_hangs :
    (fuel : ℕ) (cancelled : ℕ → Bool) (check_interval : ℕ)
    → ((n : ℕ) → cancelled n ≡ false)
    → 0 < check_interval
    → check_cancelled_periodically fuel (some cancelled) check_interval ≡ none
unfolding check_cancelled_periodically
check_cancelled_periodically_hangs fuel cancelled check_interval never h =
    periodic-none fuel cancelled 0 0 check_interval never h

ask_now :
    (cancelled : ℕ → Bool) (fuel asked counter interval : ℕ)
    → suc counter ≡ interval
    → cancelled asked ≡ true
    → periodic (suc fuel) cancelled asked counter interval ≡ some true
unfolding periodic
ask_now cancelled fuel asked counter interval e yes_now = ground arith

ask_again :
    (cancelled : ℕ → Bool) (fuel asked counter interval : ℕ) (r : Option Bool)
    → suc counter ≡ interval
    → cancelled asked ≡ false
    → periodic fuel cancelled (suc asked) 0 interval ≡ r
    → periodic (suc fuel) cancelled asked counter interval ≡ r
unfolding periodic
ask_again cancelled fuel asked counter interval r e not_now h = ground arith

count_up :
    (cancelled : ℕ → Bool) (fuel asked counter interval : ℕ) (r : Option Bool)
    → suc counter < interval
    → periodic fuel cancelled asked (suc counter) interval ≡ r
    → periodic (suc fuel) cancelled asked counter interval ≡ r
unfolding periodic
count_up cancelled fuel asked counter interval r e h = ground arith

-- The event is set when it is asked `n` times from now; `left` rounds are to go until it is asked.
returns_at :
    (n left : ℕ) (cancelled : ℕ → Bool) (asked counter interval : ℕ)
    → counter + suc left ≡ interval
    → cancelled (asked + n) ≡ true
    → (fuel : ℕ) × (periodic fuel cancelled asked counter interval ≡ some true)
returns_at n (suc left) cancelled asked counter interval e set_then =
    let (fuel, h) =
      returns_at n left cancelled asked (suc counter) interval (omega arith) set_then in
    (suc fuel, count_up cancelled fuel asked counter interval (some true) (omega arith) h)
returns_at zero zero cancelled asked counter interval e set_then = (
  1,
  ask_now cancelled 0 asked counter interval (omega arith)
      (subst (λ i. cancelled i ≡ true) (omega arith) set_then),
)
returns_at (suc n) zero cancelled asked counter interval e set_then =
    elim (Bool-cases (cancelled asked)) [
      | inl now ↦ (1, ask_now cancelled 0 asked counter interval (omega arith) now)
      | inr later ↦
          let (fuel, h) =
            returns_at n counter cancelled (suc asked) 0 interval (omega arith)
              (subst (λ i. cancelled i ≡ true) (omega arith) set_then) in
          (
            suc fuel,
            ask_again cancelled fuel asked counter interval (some true) (omega arith) later h,
          )
    ]

-- With an interval of at least one, `check_cancelled_periodically` returns once it asks the event
-- at a time at which it is set, and the answer is then True.
pub check_cancelled_periodically_returns :
    (n : ℕ) (cancelled : ℕ → Bool) (check_interval : ℕ)
    → cancelled n ≡ true
    → 0 < check_interval
    → (fuel : ℕ) × (check_cancelled_periodically fuel (some cancelled) check_interval ≡ some true)
unfolding check_cancelled_periodically
check_cancelled_periodically_returns n cancelled zero set_then h = absurd (omega arith)
check_cancelled_periodically_returns n cancelled (suc left) set_then h =
    returns_at n left cancelled 0 0 (suc left) (omega arith)
      (subst (λ i. cancelled i ≡ true) (omega arith) set_then)
