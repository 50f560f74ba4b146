-- ===== src/Executor/Timeouts.antt =====
-- The records of the tasks that timed out.
use fish_async_task.Prelude.{
  ℕ, zero, suc, ◌+◌, ◌≤◌, ◌≡◌, refl, String, ◌==◌, eq_iff, eq_refl, Bool, false, Option, none, some,
  List, [], ◌∷◌, arith, ltb, if◌then◌else◌, length, any, Bool-cases, ◌⊎◌, inl, inr,
}
use fish_async_task.Prelude.Dict.{Dict}
use fish_async_task.Prelude.Dict
use fish_async_task.Executor.{
  TaskExecutor, max_tracked_timeouts, timeout_task_expiry, expired_ids, pop_all,
  track_timed_out_task,
}

lookup-pop_all :
    (ks : List String) (j : String) (d : Dict ℕ)
    → Dict.lookup j (pop_all ks d) ≡ (if any (λ k. k == j) ks then none else Dict.lookup j d)
unfolding pop_all
lookup-pop_all [] j d = refl
lookup-pop_all (k ∷ ks) j d =
    ground (arith, lookup-pop_all ks j (Dict.delete k d), Dict.lookup-delete k j d)

pop_all-HasUniqueKeys :
    (ks : List String) (d : Dict ℕ) → Dict.HasUniqueKeys d → Dict.HasUniqueKeys (pop_all ks d)
unfolding pop_all
pop_all-HasUniqueKeys [] d u = u
pop_all-HasUniqueKeys (k ∷ ks) d u =
    pop_all-HasUniqueKeys ks (Dict.delete k d) (Dict.delete-HasUniqueKeys k d u)

length-pop_all :
    (ks : List String) (d : Dict ℕ) → Dict.HasUniqueKeys d → length (pop_all ks d) ≤ length d
unfolding pop_all
length-pop_all [] d u = omega arith
length-pop_all (k ∷ ks) d u = ground (
  arith,
  length-pop_all ks (Dict.delete k d) (Dict.delete-HasUniqueKeys k d u),
  Dict.length-delete k d u,
)

-- A record that is there and expired.
abbrev pub overdue : (now : ℕ) → Option ℕ → Bool
overdue now none = false
overdue now (some expiry) = ltb (expiry + timeout_task_expiry) now

any-expired_ids :
    (now n : ℕ) (j : String) (d : Dict ℕ)
    → Dict.HasUniqueKeys d
    → length d ≤ n
    → any (λ k. k == j) (expired_ids now n d) ≡ overdue now (Dict.lookup j d)
unfolding expired_ids Dict.lookup
any-expired_ids now n j [] u h = refl
any-expired_ids now zero j ((k, t) ∷ d) u h = absurd (omega (arith, h))
any-expired_ids now (suc n) j ((k, t) ∷ d) u h = ground (
  arith,
  any-expired_ids now n j d u.1 (omega (arith, h)),
  any-expired_ids now (suc n) j d u.1 (omega (arith, h)),
  Dict.has-eq_lookup j d,
  eq_iff k j,
  Dict.has_ext k j d,
  u.0,
)

-- What is recorded of a task `j` after the task `k` timed out.
pub record Tracked (now : ℕ) (k : String) (d d' : Dict ℕ) : Type 0 where
  pub unique : Dict.HasUniqueKeys d'
  pub bounded : length d' ≤ max_tracked_timeouts
  pub others :
      (j : String)
      → (k == j) ≡ false
      → Dict.lookup j d' ≡ (if overdue now (Dict.lookup j d) then none else Dict.lookup j d)
  pub itself : (Dict.lookup k d' ≡ some now) ⊎ (length d' ≡ max_tracked_timeouts)

module _ {R : Type 0} where
  -- While each task has one record and there are at most max_tracked_timeouts of them, this remains
  -- so after `_track_timed_out_task`. It drops exactly the records that are past their hour, leaves
  -- all others, and records the task that timed out, unless the records are full.
  pub track_timed_out_task-Tracked :
      (now : ℕ) (k : String) (e : TaskExecutor R)
      → Dict.HasUniqueKeys e.timed_out_tasks
      → length e.timed_out_tasks ≤ max_tracked_timeouts
      → Tracked now k e.timed_out_tasks (track_timed_out_task now k e).timed_out_tasks
  unfolding track_timed_out_task
  track_timed_out_task-Tracked now k e u h =
      let d = e.timed_out_tasks in
      let ids = expired_ids now (length d) d in
      let rest = pop_all ids d in
      let left : length rest ≤ max_tracked_timeouts = omega (arith, length-pop_all ids d u, h) in
      let kept = λ (j : String). any-expired_ids now (length d) j d u (omega arith) in
      elim (Bool-cases (ltb (length rest) max_tracked_timeouts)) [
        | inl room ↦ rw room (record {
          unique = Dict.insert-HasUniqueKeys k now rest (pop_all-HasUniqueKeys ids d u);
          bounded = ground (arith, Dict.length-insert k now rest);
          others = λ j other.
              ground (arith, Dict.lookup-insert k j now rest, lookup-pop_all ids j d, kept j);
          itself = inl (ground (arith, Dict.lookup-insert k k now rest, eq_refl k));
        })
        | inr full ↦ rw full (record {
          unique = pop_all-HasUniqueKeys ids d u;
          bounded = left;
          others = λ j other. ground (arith, lookup-pop_all ids j d, kept j);
          itself = inr (ground arith);
        })
      ]
