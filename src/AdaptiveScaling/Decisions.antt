-- ===== src/AdaptiveScaling/Decisions.antt =====
-- What the approvals rest on, one after the other and two at once.
use fish_async_task.Prelude.{ℕ, ◌+◌, ◌≤◌, ◌<◌, ◌≡◌, refl, ◌∙◌, ap, true, false, Option, arith}
use fish_async_task.AdaptiveScaling.{
  AdaptiveWorkerManager, is_busy, wants_up, note_up, should_scale_up,
}

-- What has to hold for one more worker.
pub record UpAllowed (now : ℕ) (m : AdaptiveWorkerManager) (current_workers queue_size : ℕ)
    (cpu_usage : Option ℕ) : Type 0 where
  pub room : current_workers < m.max_workers
  pub rested : m.last_scale_up_time + m.scale_up_cooldown ≤ now
  pub calm : is_busy m.cpu_threshold cpu_usage ≡ false
  pub long_queue : m.queue_threshold < queue_size

pub wants_up-UpAllowed :
    (now : ℕ) (m : AdaptiveWorkerManager) (current_workers queue_size : ℕ) (cpu_usage : Option ℕ)
    → wants_up now m current_workers queue_size cpu_usage ≡ true
    → UpAllowed now m current_workers queue_size cpu_usage
unfolding wants_up
wants_up-UpAllowed now m current_workers queue_size cpu_usage h = record {
  room = ground (arith, h);
  rested = ground (arith, h);
  calm = ground (arith, h);
  long_queue = ground (arith, h);
}

approved :
    (now : ℕ) (m : AdaptiveWorkerManager) (current_workers queue_size : ℕ) (cpu_usage : Option ℕ)
    → wants_up now m current_workers queue_size cpu_usage ≡ true
    → should_scale_up now current_workers queue_size cpu_usage m ≡ (true, note_up now m)
unfolding should_scale_up
approved now m current_workers queue_size cpu_usage h = rw h refl

not_rested :
    (now later : ℕ) (m : AdaptiveWorkerManager) (current_workers queue_size : ℕ)
    (cpu_usage : Option ℕ)
    → later < now + m.scale_up_cooldown
    → wants_up later (note_up now m) current_workers queue_size cpu_usage ≡ false
unfolding wants_up note_up
not_rested now later m current_workers queue_size cpu_usage soon = ground arith

refused :
    (later : ℕ) (m : AdaptiveWorkerManager) (current_workers queue_size : ℕ) (cpu_usage : Option ℕ)
    → wants_up later m current_workers queue_size cpu_usage ≡ false
    → (should_scale_up later current_workers queue_size cpu_usage m).0 ≡ false
unfolding should_scale_up
refused later m current_workers queue_size cpu_usage h = rw h refl

still_wanted :
    (now later : ℕ) (m : AdaptiveWorkerManager) (current_workers queue_size : ℕ)
    (cpu_usage : Option ℕ)
    → UpAllowed now m current_workers queue_size cpu_usage
    → now ≤ later
    → wants_up later m current_workers queue_size cpu_usage ≡ true
unfolding wants_up
still_wanted now later m current_workers queue_size cpu_usage a o =
    ground (arith, a.room, a.rested, a.calm, a.long_queue)

-- Let a first caller of `should_scale_up` be told to add a worker, and a second one ask within the
-- cooldown, with the same numbers. If the first call has ended, the second answers False. If the
-- second makes its test before the first notes its time, its test succeeds too.
pub should_scale_up_twice :
    (now later : ℕ) (m : AdaptiveWorkerManager) (current_workers queue_size : ℕ)
    (cpu_usage : Option ℕ)
    → wants_up now m current_workers queue_size cpu_usage ≡ true
    → now ≤ later
    → later < now + m.scale_up_cooldown
    → ((should_scale_up later current_workers queue_size cpu_usage
          (should_scale_up now current_workers queue_size cpu_usage m).1).0
        ≡ false)
      × (wants_up later m current_workers queue_size cpu_usage ≡ true)
should_scale_up_twice now later m current_workers queue_size cpu_usage h o soon = (
  ap (λ r. (should_scale_up later current_workers queue_size cpu_usage r.1).0)
        (approved now m current_workers queue_size cpu_usage h)
      ∙ refused later (note_up now m) current_workers queue_size cpu_usage
          (not_rested now later m current_workers queue_size cpu_usage soon),
  still_wanted now later m current_workers queue_size cpu_usage
      (wants_up-UpAllowed now m current_workers queue_size cpu_usage h) o,
)
