-- ===== src/Config/Unvalidated.antt =====
-- What passes the loaders.
use fish_async_task.Prelude.{◌≡◌, refl, String, ◌==◌, true, false, Option, none, some}
use fish_async_task.Prelude.Int.{ℤ, pos, lt_int}
use fish_async_task.Config.Floats.{
  Float, minus_infinity, plus_infinity, finite, not_a_number, lt_float,
}
use fish_async_task.Config.{
  Environment, load_int_config, load_float_config, load_timeout_config, load_config_int,
  load_adaptive_worker_config,
}

not-lt_nan : (a : Float) → lt_float a not_a_number ≡ false
not-lt_nan minus_infinity = refl
not-lt_nan (finite a) = refl
not-lt_nan plus_infinity = refl
not-lt_nan not_a_number = refl

-- When the text of the timeout is NaN for Python, so is the timeout that `load_timeout_config`
-- returns, and so is what `_load_float_config` returns for a variable with this text, whatever the
-- bounds.
pub nan_loaded :
    (env : Environment) (s k : String) (default low : Float) (high : Option Float)
    → env.float_of s ≡ some not_a_number
    → (s == "") ≡ false
    → env.getenv "TASK_TIMEOUT" ≡ some s
    → env.getenv k ≡ some s
    → (load_timeout_config env none ≡ some not_a_number)
      × (load_float_config env k default low high ≡ not_a_number)
unfolding load_timeout_config load_float_config
nan_loaded env s k default low none n e t h = (rw (t, e, n) refl, rw (h, n) refl)
nan_loaded env s k default low (some high) n e t h =
    (rw (t, e, n) refl, rw (h, n, not-lt_nan high) refl)

-- `WorkerManager` reads the environment by itself, without the bounds of
-- `load_adaptive_worker_config`: for a number below 1 in the variable, not empty, the loader
-- answers 100, and the manager takes the number.
pub threshold_unvalidated :
    (env : Environment) (s : String) (v : ℤ)
    → env.getenv "WORKER_QUEUE_THRESHOLD_HIGH" ≡ some s
    → (s == "") ≡ false
    → env.int_of s ≡ some v
    → lt_int v (pos 1) ≡ true
    → ((load_adaptive_worker_config env).queue_threshold_high ≡ pos 100)
      × (load_config_int env "WORKER_QUEUE_THRESHOLD_HIGH" none (pos 100) ≡ v)
unfolding load_adaptive_worker_config load_int_config load_config_int
threshold_unvalidated env s v h e n small = (rw (h, n, small) refl, rw (h, e, n) refl)
