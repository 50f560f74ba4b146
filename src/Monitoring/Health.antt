-- ===== src/Monitoring/Health.antt =====
-- `SystemHealthMonitor` of fish_async_task/performance/monitoring.py. Every method runs under
-- `_lock`, as one step. A value function gives a number or raises an exception; numbers are
-- quotients that are not computed, and a comparison of them does not raise.
pub mod Judged
use fish_async_task.Prelude.{
  ℕ, zero, suc, ◌+◌, ◌-◌, ◌*◌, String, Bool, true, false, not, ◌&&◌, ◌||◌, Option, none, some, List,
  [], ◌∷◌, map, if◌then◌else◌,
}
use fish_async_task.Prelude.Dict
use fish_async_task.Prelude.Dict.{Dict}
use fish_async_task.Prelude.Int.{ℤ, pos, negsuc, lt_int}
use fish_async_task.Monitoring.{Ratio, Metrics}

pub data HealthStatus : Type 0 where
  green yellow red : HealthStatus

-- A number with a positive denominator.
pub record Number : Type 0 where
  pub numerator : ℤ
  pub denominator : ℕ

-- `a * n`
abbrev pub times : ℤ → ℕ → ℤ
times (pos a) n = pos (a * n)
times (negsuc a) zero = pos 0
times (negsuc a) (suc n) = negsuc (suc a * suc n - 1)

-- `a >= b`
abbrev pub at_least : Number → Number → Bool
at_least a b = not (lt_int (times a.numerator b.denominator) (times b.numerator a.denominator))

abbrev pub whole : ℤ → Number
whole a = record { numerator = a; denominator = 1 }

abbrev pub quotient : (factor : ℕ) → Ratio → Number
quotient factor r = record { numerator = pos (r.numerator * factor); denominator = r.denominator }

-- `x and value >= x`: a bound that is None or 0 is no bound.
abbrev pub reaches : Number → Option Number → Bool
reaches value none = false
reaches value (some bound) =
    (lt_int (pos 0) bound.numerator || lt_int bound.numerator (pos 0)) && at_least value bound

pub data Outcome : Type 0 where
  measured : Number → Outcome
  raised : String → Outcome

pub record Check : Type 0 where
  pub value_func : Metrics → Outcome
  pub threshold : Option Number
  pub status_warning : Option Number
  pub status_critical : Option Number
  pub current_value : Option Number
  pub status : HealthStatus

-- The dict that stands for one check in the result.
pub data CheckResult : Type 0 where
  success :
      (value : Number) (status : HealthStatus)
      (warning_threshold critical_threshold : Option Number)
      → CheckResult
  error : (status : HealthStatus) (message : String) → CheckResult

unfoldable pub register_health_check :
    String
    → (Metrics → Outcome)
    → (threshold status_warning status_critical : Option Number) → Dict Check
    → Dict Check
register_health_check name value_func threshold status_warning status_critical checks =
    Dict.insert name
      (record {
        value_func = value_func;
        threshold = threshold;
        status_warning = status_warning;
        status_critical = status_critical;
        current_value = none;
        status = green;
      })
      checks

-- The bounds of the built-in checks.
abbrev number : ℕ → Option Number
number n = some (whole (pos n))

-- `_register_default_health_checks`
unfoldable pub register_default_health_checks : Dict Check → Dict Check
unfolding register_health_check
register_default_health_checks checks =
    register_health_check "avg_execution_time"
      (λ m. measured (quotient 1 m.avg_execution_time_seconds)) (number 60) (number 30) (number 60)
      (register_health_check "failure_rate" (λ m. measured (quotient 100 m.failure_rate))
        (number 10) (number 5) (number 10)
        (register_health_check "queue_size" (λ m. measured (whole m.tasks_in_progress))
          (number 1000) (number 800) (number 950) checks))

-- `__init__`
unfoldable pub new : Dict Check
unfolding register_default_health_checks
new = register_default_health_checks []

-- What the loop of `update_health_status` has so far.
pub record Progress : Type 0 where
  pub overall_status : HealthStatus
  pub check_results : Dict CheckResult
  pub health_checks : Dict Check

-- The branches for a value.
abbrev pub status_of : Check → Number → HealthStatus
status_of c value =
    if reaches value c.status_critical
    then red
    else (if reaches value c.status_warning then yellow else green)

-- What each of them makes of the overall status.
abbrev pub raise_overall : HealthStatus → HealthStatus → HealthStatus
raise_overall overall red = red
raise_overall red yellow = red
raise_overall green yellow = yellow
raise_overall yellow yellow = yellow
raise_overall overall green = overall

-- The body of the loop. The keys of the items are distinct, so that each result is put at the end.
unfoldable pub update_check : Metrics → String → Check → Outcome → Progress → Progress
update_check metrics name c (measured value) p = record {
  overall_status = raise_overall p.overall_status (status_of c value);
  check_results =
      Dict.insert name (success value (status_of c value) c.status_warning c.status_critical)
        p.check_results;
  health_checks =
      Dict.insert name (record c { current_value = some value; status = status_of c value })
        p.health_checks;
}
update_check metrics name c (raised message) p = record {
  overall_status = red;
  check_results = Dict.insert name (error red message) p.check_results;
  health_checks = p.health_checks;
}

unfoldable pub update_checks : Metrics → Dict Check → Progress → Progress
unfolding update_check
update_checks metrics [] p = p
update_checks metrics ((name, c) ∷ checks) p =
    update_checks metrics checks (update_check metrics name c (c.value_func metrics) p)

-- The result, without its timestamp, and the checks as they are then.
unfoldable pub update_health_status : Metrics → Dict Check → Progress
unfolding update_checks
update_health_status metrics checks =
    update_checks metrics checks
      (record { overall_status = green; check_results = []; health_checks = checks })

-- What `get_health_status` gives for one check.
pub record CheckView : Type 0 where
  pub current_value : Option Number
  pub status : HealthStatus

abbrev pub view : Check → CheckView
view c = record { current_value = c.current_value; status = c.status }

unfoldable pub get_health_status : Dict Check → Dict CheckView
get_health_status [] = []
get_health_status ((name, c) ∷ checks) = (name, view c) ∷ get_health_status checks
