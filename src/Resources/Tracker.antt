-- ===== src/Resources/Tracker.antt =====
-- `TimeoutTaskTracker` of fish_async_task/performance/resource_manager.py. Each method holds the
-- lock from beginning to end. A thread is an opaque `T`.
use fish_async_task.Prelude.{
  ℕ, zero, suc, ◌+◌, ◌≡◌, refl, String, Bool, true, false, Option, none, some, [], ◌∷◌, arith, leb,
  ltb, if◌then◌else◌, length, Bool-cases, inl, inr,
}
use fish_async_task.Prelude.Dict.{Dict}
use fish_async_task.Prelude.Dict

pub record TimedOut (T : Type 0) : Type 0 where
  pub thread : T
  pub submit_time : ℕ
  pub timeout_time : ℕ

pub record TimeoutTaskTracker (T : Type 0) : Type 0 where
  pub max_tracked : ℕ
  pub task_expiry : ℕ
  pub timed_out_tasks : Dict (TimedOut T)

-- `submit_time or time.time()`, which takes None and 0 alike.
abbrev pub or_now : (now : ℕ) → Option ℕ → ℕ
or_now now none = now
or_now now (some zero) = now
or_now now (some (suc t)) = suc t

module _ {T : Type 0} where
  -- `now - info["timeout_time"] > self._task_expiry`
  abbrev pub is_expired : (now expiry : ℕ) → TimedOut T → Bool
  is_expired now expiry info = ltb (info.timeout_time + expiry) now

  -- What the two loops of `_cleanup_expired` leave, and how many they take out.
  unfoldable pub without_expired : (now expiry : ℕ) → Dict (TimedOut T) → ℕ × Dict (TimedOut T)
  without_expired now expiry [] = (0, [])
  without_expired now expiry ((k, info) ∷ d) =
      let (n, rest) = without_expired now expiry d in
      if is_expired now expiry info then (suc n, rest) else (n, (k, info) ∷ rest)

  -- `_cleanup_expired`
  unfoldable pub cleanup_expired : (now : ℕ) → TimeoutTaskTracker T → ℕ × TimeoutTaskTracker T
  unfolding without_expired
  cleanup_expired now t =
      let (n, d) = without_expired now t.task_expiry t.timed_out_tasks in
      (n, record t { timed_out_tasks = d })

  unfoldable pub track_timeout_task :
      (now : ℕ)
      → String
      → T
      → (submit_time : Option ℕ) → TimeoutTaskTracker T
      → TimeoutTaskTracker T
  unfolding cleanup_expired
  track_timeout_task now k thread submit_time t =
      let cleaned = (cleanup_expired now t).1 in
      let t' : TimeoutTaskTracker T =
        if leb t.max_tracked (length t.timed_out_tasks) then cleaned else t in
      record t' {
        timed_out_tasks =
            Dict.insert k
              (record { thread = thread; submit_time = or_now now submit_time; timeout_time = now })
              t'.timed_out_tasks;
      }

  unfoldable pub untrack_task : String → TimeoutTaskTracker T → Bool × TimeoutTaskTracker T
  untrack_task k t =
      if Dict.has k t.timed_out_tasks
      then (true, record t { timed_out_tasks = Dict.delete k t.timed_out_tasks })
      else (false, t)

  unfoldable pub get_tracked_count : TimeoutTaskTracker T → ℕ
  get_tracked_count t = length t.timed_out_tasks

  -- No task of the dict is expired.
  abbrev pub AllFresh : (now expiry : ℕ) → Dict (TimedOut T) → Type 0
  AllFresh now expiry [] = Unit
  AllFresh now expiry ((k, info) ∷ d) = (is_expired now expiry info ≡ false) × AllFresh now expiry d

  without_expired_fresh :
      (now expiry : ℕ) (d : Dict (TimedOut T))
      → AllFresh now expiry d
      → without_expired now expiry d ≡ (0, d)
  unfolding without_expired
  without_expired_fresh now expiry [] h = refl
  without_expired_fresh now expiry ((k, info) ∷ d) h =
      rw (without_expired_fresh now expiry d h.1, h.0) refl

  -- When no tracked task is expired, `track_timeout_task` of a task that is not tracked adds one
  -- more, however many there are: `max_tracked` is no bound on their number.
  pub track_timeout_task_unbounded :
      (now : ℕ) (k : String) (thread : T) (submit_time : Option ℕ) (t : TimeoutTaskTracker T)
      → AllFresh now t.task_expiry t.timed_out_tasks
      → Dict.has k t.timed_out_tasks ≡ false
      → get_tracked_count (track_timeout_task now k thread submit_time t)
        ≡ suc (get_tracked_count t)
  unfolding track_timeout_task cleanup_expired get_tracked_count
  track_timeout_task_unbounded now k thread submit_time t fresh new_task =
      let info : TimedOut T = record {
        thread = thread;
        submit_time = or_now now submit_time;
        timeout_time = now;
      } in
      let added = Dict.length-insert k info t.timed_out_tasks in
      elim (Bool-cases (leb t.max_tracked (length t.timed_out_tasks))) [
        | inl full ↦
            rw (full, without_expired_fresh now t.task_expiry t.timed_out_tasks fresh)
              (ground (arith, added, new_task))
        | inr room ↦ rw room (ground (arith, added, new_task))
      ]
