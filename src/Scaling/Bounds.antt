-- ===== src/Scaling/Bounds.antt =====
-- A pool that follows the answers of the adaptive manager, and the limits of its size.
use fish_async_task.Prelude.{ℕ, suc, ◌-◌, ◌≤◌, ◌≡◌, Bool, true, false, Option, List, [], ◌∷◌, arith}
use fish_async_task.Scaling.{AdaptiveWorkerManager, should_scale_up, should_scale_down}

-- A question put to the manager: at a time, with the size of the queue and what is known of the
-- processor or of the idle time.
pub data Query : Type 0 where
  asks_up : (now queue_size : ℕ) → (cpu_usage : Option ℕ) → Query
  asks_down : (now queue_size : ℕ) → (idle_time : Option ℕ) → Query

-- The workers, the manager, and the times at which it approved of one more, the latest first.
pub record Pool : Type 0 where
  pub workers : ℕ
  pub manager : AdaptiveWorkerManager
  pub scale_ups : List ℕ

abbrev pub grow : ℕ → Pool → Bool × AdaptiveWorkerManager → Pool
grow now p (true, m) = record {
  workers = suc p.workers;
  manager = m;
  scale_ups = now ∷ p.scale_ups;
}
grow now p (false, m) = record p { manager = m }

abbrev pub shrink : Pool → Bool × AdaptiveWorkerManager → Pool
shrink p (true, m) = record p { workers = p.workers - 1; manager = m }
shrink p (false, m) = record p { manager = m }

unfoldable pub ask : Pool → Query → Pool
ask p (asks_up now queue_size cpu_usage) =
    grow now p (should_scale_up now p.manager p.workers queue_size cpu_usage)
ask p (asks_down now queue_size idle_time) =
    shrink p (should_scale_down now p.manager p.workers queue_size idle_time)

unfoldable pub ask_all : Pool → List Query → Pool
ask_all p [] = p
ask_all p (q ∷ qs) = ask_all (ask p q) qs

-- The limits are those given, and the workers are within them.
pub record WithinLimits (low high : ℕ) (p : Pool) : Type 0 where
  pub same_low : p.manager.min_workers ≡ low
  pub same_high : p.manager.max_workers ≡ high
  pub above : low ≤ p.workers
  pub below : p.workers ≤ high

ask-WithinLimits :
    (low high : ℕ) (p : Pool) (q : Query)
    → WithinLimits low high p
    → WithinLimits low high (ask p q)
unfolding ask should_scale_up should_scale_down
ask-WithinLimits low high p (asks_up now size cpu) w =
    ground (arith, w.same_low, w.same_high, w.above, w.below)
ask-WithinLimits low high p (asks_down now size idle) w =
    ground (arith, w.same_low, w.same_high, w.above, w.below)

-- Whatever is asked, a pool that starts within the limits, and adds a worker when `should_scale_up`
-- answers True and removes one when `should_scale_down` does, stays within `min_workers` and
-- `max_workers`, and these do not change.
pub ask_all-WithinLimits :
    (qs : List Query) (low high : ℕ) (p : Pool)
    → WithinLimits low high p
    → WithinLimits low high (ask_all p qs)
unfolding ask_all
ask_all-WithinLimits [] low high p w = w
ask_all-WithinLimits (q ∷ qs) low high p w =
    ask_all-WithinLimits qs low high (ask p q) (ask-WithinLimits low high p q w)
