-- ===== src/Config/Bounds.antt =====
-- The ranges of the numbers that the loaders return.
use fish_async_task.Prelude.{◌≡◌, refl, String, false, Option, none, some, Bool-cases, inl, inr}
use fish_async_task.Prelude.Int.{ℤ, pos, lt_int}
use fish_async_task.Config.Floats.{Float, finite, lt_float, le_float}
use fish_async_task.Config.{
  Environment, checked_int, checked_float, parsed, given, checked_timeout, timeout_of, whole,
  load_int_config, load_float_config, load_timeout_config, TaskManagerConfig, AdaptiveWorkerConfig,
  PerformanceConfig, load_adaptive_worker_config, load_performance_config, load_configurations,
}

-- `value` is neither below `low` nor above `high`.
pub record IntWithin (low high value : ℤ) : Type 0 where
  pub above : lt_int value low ≡ false
  pub below : lt_int high value ≡ false

-- The same of a `float`. NaN is within any bounds.
pub record FloatWithin (low high value : Float) : Type 0 where
  pub above : lt_float value low ≡ false
  pub below : lt_float high value ≡ false

checked_int-IntWithin :
    (default low high : ℤ) (o : Option ℤ)
    → lt_int high low ≡ false
    → lt_int high high ≡ false
    → IntWithin low high default
    → IntWithin low high (checked_int default low (some high) o)
checked_int-IntWithin default low high none ordered e w = w
checked_int-IntWithin default low high (some v) ordered e w = elim (Bool-cases (lt_int v low)) [
  | inl small ↦ rw small w
  | inr enough ↦ elim (Bool-cases (lt_int high v)) [
    | inl large ↦ rw (enough, large) (record { above = ordered; below = e })
    | inr fits ↦ rw (enough, fits) (record { above = enough; below = fits })
  ]
]

checked_float-FloatWithin :
    (default low high : Float) (o : Option Float)
    → lt_float high low ≡ false
    → lt_float high high ≡ false
    → FloatWithin low high default
    → FloatWithin low high (checked_float default low (some high) o)
checked_float-FloatWithin default low high none ordered e w = w
checked_float-FloatWithin default low high (some v) ordered e w =
    elim (Bool-cases (lt_float v low)) [
      | inl small ↦ rw small w
      | inr enough ↦ elim (Bool-cases (lt_float high v)) [
        | inl large ↦ rw (enough, large) (record { above = ordered; below = e })
        | inr fits ↦ rw (enough, fits) (record { above = enough; below = fits })
      ]
    ]

-- A timeout is none, or not 0 or less and not above `high`.
abbrev pub TimeoutWithin : (high : Float) → Option Float → Type 0
TimeoutWithin high none = Unit
TimeoutWithin high (some t) = (le_float t (finite (pos 0)) ≡ false) × (lt_float high t ≡ false)

checked_timeout-TimeoutWithin :
    (high : Float) (o : Option Float)
    → le_float high (finite (pos 0)) ≡ false
    → lt_float high high ≡ false
    → TimeoutWithin high (checked_timeout high o)
checked_timeout-TimeoutWithin high none positive e = tt
checked_timeout-TimeoutWithin high (some t) positive e =
    elim (Bool-cases (le_float t (finite (pos 0)))) [
      | inl off ↦ rw off tt
      | inr on ↦ elim (Bool-cases (lt_float high t)) [
        | inl large ↦ rw (on, large) (positive, e)
        | inr fits ↦ rw (on, fits) (on, fits)
      ]
    ]

timeout_of-TimeoutWithin :
    (float_of : String → Option Float) (high : Float) (o : Option String)
    → le_float high (finite (pos 0)) ≡ false
    → lt_float high high ≡ false
    → TimeoutWithin high (timeout_of float_of high none o)
timeout_of-TimeoutWithin float_of high none positive e = tt
timeout_of-TimeoutWithin float_of high (some s) positive e =
    checked_timeout-TimeoutWithin high (float_of s) positive e

-- What holds of every configuration that the loaders return.
pub record AllWithin (t : TaskManagerConfig) (a : AdaptiveWorkerConfig) (p : PerformanceConfig)
    : Type 0 where
  pub ttl : IntWithin (pos 1) (pos 86400) t.task_status_ttl
  pub count : IntWithin (pos 1) (pos 1000000) t.max_task_status_count
  pub interval : IntWithin (pos 1) (pos 3600) t.cleanup_interval
  pub timeout : TimeoutWithin (whole 86400) t.task_timeout
  pub cpu : FloatWithin (whole 0) (whole 1) a.cpu_threshold
  pub high : IntWithin (pos 1) (pos 10000) a.queue_threshold_high
  pub low : IntWithin (pos 0) (pos 10000) a.queue_threshold_low
  pub up : FloatWithin (whole 0) (whole 3600) a.scale_up_cooldown
  pub down : FloatWithin (whole 0) (whole 3600) a.scale_down_cooldown
  pub shards : IntWithin (pos 1) (pos 1024) p.shard_count
  pub buffer : IntWithin (pos 1) (pos 10000) p.batch_update_buffer_size
  pub flush : FloatWithin (finite (pos 10000)) (whole 60) p.batch_update_interval

-- Whatever the environment holds, each whole number that the loaders return is within its bounds,
-- and no float is below its minimum or above its maximum, NaN being neither; the timeout is none or
-- not 0 or less, and not above a day.
pub loaded-AllWithin :
    (env : Environment)
    → AllWithin
        (load_configurations env)
        (load_adaptive_worker_config env)
        (load_performance_config env)
unfolding load_configurations load_adaptive_worker_config load_performance_config load_int_config
    load_float_config load_timeout_config
loaded-AllWithin env =
    let int = λ (k : String). parsed env.int_of (env.getenv k) in
    let float = λ (k : String). parsed env.float_of (env.getenv k) in
    record {
      ttl =
          checked_int-IntWithin (pos 3600) (pos 1) (pos 86400) (int "TASK_STATUS_TTL") refl refl
            (record { above = refl; below = refl });
      count =
          checked_int-IntWithin (pos 10000) (pos 1) (pos 1000000) (int "MAX_TASK_STATUS_COUNT") refl
            refl (record { above = refl; below = refl });
      interval =
          checked_int-IntWithin (pos 300) (pos 1) (pos 3600) (int "TASK_CLEANUP_INTERVAL") refl refl
            (record { above = refl; below = refl });
      timeout =
          timeout_of-TimeoutWithin env.float_of (whole 86400) (given (env.getenv "TASK_TIMEOUT"))
            refl refl;
      cpu =
          checked_float-FloatWithin (finite (pos 800000)) (whole 0) (whole 1)
            (float "WORKER_CPU_THRESHOLD") refl refl (record { above = refl; below = refl });
      high =
          checked_int-IntWithin (pos 100) (pos 1) (pos 10000) (int "WORKER_QUEUE_THRESHOLD_HIGH")
            refl refl (record { above = refl; below = refl });
      low =
          checked_int-IntWithin (pos 10) (pos 0) (pos 10000) (int "WORKER_QUEUE_THRESHOLD_LOW") refl
            refl (record { above = refl; below = refl });
      up =
          checked_float-FloatWithin (whole 5) (whole 0) (whole 3600)
            (float "WORKER_SCALE_UP_COOLDOWN") refl refl (record { above = refl; below = refl });
      down =
          checked_float-FloatWithin (whole 30) (whole 0) (whole 3600)
            (float "WORKER_SCALE_DOWN_COOLDOWN") refl refl (record { above = refl; below = refl });
      shards =
          checked_int-IntWithin (pos 16) (pos 1) (pos 1024) (int "SHARD_COUNT") refl refl
            (record { above = refl; below = refl });
      buffer =
          checked_int-IntWithin (pos 100) (pos 1) (pos 10000) (int "BATCH_UPDATE_BUFFER_SIZE") refl
            refl (record { above = refl; below = refl });
      flush =
          checked_float-FloatWithin (finite (pos 100000)) (finite (pos 10000)) (whole 60)
            (float "BATCH_UPDATE_INTERVAL") refl refl (record { above = refl; below = refl });
    }
