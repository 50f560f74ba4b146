-- ===== src/Config.antt =====
-- `ConfigLoader` of fish_async_task/config.py, and the loaders that read the environment past it:
-- `TaskManager._load_configurations` of task_manager.py, and `_load_config_int` and
-- `_load_config_float` of worker/core.py. The environment is a parameter, and so are `int(s)`,
-- `float(s)`, where none is the `ValueError`, and `s.strip().lower()`. The warnings are left out.
pub mod Floats
pub mod Bounds
pub mod Unvalidated
pub mod HotReload
use fish_async_task.Prelude.{
  ℕ, ◌*◌, String, ◌==◌, Bool, true, false, ◌||◌, Option, none, some, List, [], ◌∷◌, if◌then◌else◌,
  any,
}
use fish_async_task.Prelude.Int.{ℤ, pos, negsuc, lt_int}
use fish_async_task.Config.Floats.{Float, finite, lt_float, le_float}

-- The environment, and what the loaders use of Python.
pub record Environment : Type 0 where
  pub getenv : String → Option String
  pub int_of : String → Option ℤ
  pub float_of : String → Option Float
  pub normalized : String → String

-- `max_value is not None and value > max_value`
abbrev pub exceeds_int : Option ℤ → ℤ → Bool
exceeds_int none value = false
exceeds_int (some max_value) value = lt_int max_value value

abbrev pub exceeds_float : Option Float → Float → Bool
exceeds_float none value = false
exceeds_float (some max_value) value = lt_float max_value value

-- `max_value`, where it is given.
abbrev pub or_value {ℓ} : {A : Type ℓ} → Option A → A → A
or_value none value = value
or_value (some max_value) value = max_value

-- The tests of `load_int_config` on a number.
abbrev pub checked_int : (default_value min_value : ℤ) (max_value : Option ℤ) → Option ℤ → ℤ
checked_int default_value min_value max_value none = default_value
checked_int default_value min_value max_value (some value) =
    if lt_int value min_value
    then default_value
    else (if exceeds_int max_value value then or_value max_value value else value)

-- The tests of `_load_float_config` on a number.
abbrev pub checked_float :
    (default_value min_value : Float) (max_value : Option Float) → Option Float → Float
checked_float default_value min_value max_value none = default_value
checked_float default_value min_value max_value (some value) =
    if lt_float value min_value
    then default_value
    else (if exceeds_float max_value value then or_value max_value value else value)

-- `try: float(s)`, after the test for None.
abbrev pub parsed {ℓ} : {A : Type ℓ} → (String → Option A) → Option String → Option A
parsed parse none = none
parsed parse (some s) = parse s

-- The words of `_load_bool_config`.
abbrev pub is_word : List String → String → Bool
is_word words s = any (λ w. w == s) words

abbrev pub bool_of : Bool → Option String → Bool
bool_of default none = default
bool_of default (some s) =
    if is_word ("true" ∷ "1" ∷ "yes" ∷ "on" ∷ "enabled" ∷ []) s
    then true
    else (if is_word ("false" ∷ "0" ∷ "no" ∷ "off" ∷ "disabled" ∷ []) s then false else default)

-- `if not task_timeout`: None, and the empty string.
abbrev pub given : Option String → Option String
given none = none
given (some s) = if s == "" then none else some s

-- The tests of `load_timeout_config` on a number.
abbrev pub checked_timeout : (max_value : Float) → Option Float → Option Float
checked_timeout max_value none = none
checked_timeout max_value (some t) =
    if le_float t (finite (pos 0))
    then none
    else (if lt_float max_value t then some max_value else some t)

abbrev pub timeout_of :
    (String → Option Float)
    → (max_value : Float) → (default_value : Option Float) → Option String
    → Option Float
timeout_of float_of max_value default_value none = default_value
timeout_of float_of max_value default_value (some s) = checked_timeout max_value (float_of s)

-- A number of seconds, or another whole number, as a `Float`.
abbrev pub whole : ℕ → Float
whole n = finite (pos (n * 1000000))

-- What `load_adaptive_worker_config` returns.
pub record AdaptiveWorkerConfig : Type 0 where
  pub adaptive_worker_enabled : Bool
  pub cpu_threshold : Float
  pub queue_threshold_high : ℤ
  pub queue_threshold_low : ℤ
  pub scale_up_cooldown : Float
  pub scale_down_cooldown : Float

-- What `load_performance_config` returns.
pub record PerformanceConfig : Type 0 where
  pub shard_count : ℤ
  pub batch_update_buffer_size : ℤ
  pub batch_update_interval : Float
  pub enable_auto_cleanup : Bool
  pub enable_batch_updates : Bool
  pub enable_adaptive_scaling : Bool

-- What `_load_configurations` sets.
pub record TaskManagerConfig : Type 0 where
  pub task_status_ttl : ℤ
  pub max_task_status_count : ℤ
  pub cleanup_interval : ℤ
  pub task_timeout : Option Float

module _ (env : Environment) where
  unfoldable pub load_int_config : String → (default_value min_value : ℤ) (max_value : Option ℤ) → ℤ
  load_int_config env_key default_value min_value max_value =
      checked_int default_value min_value max_value (parsed env.int_of (env.getenv env_key))

  -- `_load_float_config`
  unfoldable pub load_float_config :
      String → (default_value min_value : Float) (max_value : Option Float) → Float
  load_float_config env_key default_value min_value max_value =
      checked_float default_value min_value max_value (parsed env.float_of (env.getenv env_key))

  -- `_load_bool_config`
  unfoldable pub load_bool_config : String → Bool → Bool
  load_bool_config env_key default =
      bool_of default (parsed (λ s. some (env.normalized s)) (env.getenv env_key))

  unfoldable pub load_timeout_config : (default_value : Option Float) → Option Float
  load_timeout_config default_value =
      timeout_of env.float_of (whole 86400) default_value (given (env.getenv "TASK_TIMEOUT"))

  unfoldable pub load_adaptive_worker_config : AdaptiveWorkerConfig
  unfolding load_int_config load_float_config load_bool_config
  load_adaptive_worker_config = record {
    adaptive_worker_enabled = load_bool_config "ADAPTIVE_WORKER_ENABLED" true;
    cpu_threshold =
        load_float_config "WORKER_CPU_THRESHOLD" (finite (pos 800000)) (whole 0) (some (whole 1));
    queue_threshold_high =
        load_int_config "WORKER_QUEUE_THRESHOLD_HIGH" (pos 100) (pos 1) (some (pos 10000));
    queue_threshold_low =
        load_int_config "WORKER_QUEUE_THRESHOLD_LOW" (pos 10) (pos 0) (some (pos 10000));
    scale_up_cooldown =
        load_float_config "WORKER_SCALE_UP_COOLDOWN" (whole 5) (whole 0) (some (whole 3600));
    scale_down_cooldown =
        load_float_config "WORKER_SCALE_DOWN_COOLDOWN" (whole 30) (whole 0) (some (whole 3600));
  }

  unfoldable pub load_performance_config : PerformanceConfig
  unfolding load_int_config load_float_config load_bool_config
  load_performance_config = record {
    shard_count = load_int_config "SHARD_COUNT" (pos 16) (pos 1) (some (pos 1024));
    batch_update_buffer_size =
        load_int_config "BATCH_UPDATE_BUFFER_SIZE" (pos 100) (pos 1) (some (pos 10000));
    batch_update_interval =
        load_float_config "BATCH_UPDATE_INTERVAL" (finite (pos 100000)) (finite (pos 10000))
          (some (whole 60));
    enable_auto_cleanup = load_bool_config "ENABLE_AUTO_CLEANUP" true;
    enable_batch_updates = load_bool_config "ENABLE_BATCH_UPDATES" false;
    enable_adaptive_scaling = load_bool_config "ENABLE_ADAPTIVE_SCALING" false;
  }

  -- `_load_configurations`
  unfoldable pub load_configurations : TaskManagerConfig
  unfolding load_int_config load_timeout_config
  load_configurations = record {
    task_status_ttl = load_int_config "TASK_STATUS_TTL" (pos 3600) (pos 1) (some (pos 86400));
    max_task_status_count =
        load_int_config "MAX_TASK_STATUS_COUNT" (pos 10000) (pos 1) (some (pos 1000000));
    cleanup_interval = load_int_config "TASK_CLEANUP_INTERVAL" (pos 300) (pos 1) (some (pos 3600));
    task_timeout = load_timeout_config none;
  }

-- `WorkerManager._load_config_int` and `_load_config_float`, which differ in the parser alone: the
-- given value, the environment's where it is not empty and parses, the default.
abbrev pub or_parsed {ℓ} : {A : Type ℓ} → (String → Option A) → (default : A) → Option String → A
or_parsed parse default none = default
or_parsed parse default (some s) = elim (parse s) [ none ↦ default | some v ↦ v ]

abbrev pub given_or {ℓ} : {A : Type ℓ} → Option A → A → A
given_or none loaded = loaded
given_or (some v) loaded = v

unfoldable pub load_config_int : Environment → String → (value : Option ℤ) → (default : ℤ) → ℤ
load_config_int env env_key value default =
    given_or value (or_parsed env.int_of default (given (env.getenv env_key)))

unfoldable pub load_config_float :
    Environment → String → (value : Option Float) → (default : Float) → Float
load_config_float env env_key value default =
    given_or value (or_parsed env.float_of default (given (env.getenv env_key)))
