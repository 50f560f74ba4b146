-- ===== src/Tests/Monitors.antt =====
-- Counters, health checks, a clean-up thread, two instances, an environment.
use fish_async_task.Prelude.{ℕ, suc, ◌≡◌, refl, Bool, true, Option, none, some, List, [], ◌∷◌, ltb}
use fish_async_task.Prelude.Int.{pos}
use fish_async_task.Prelude.Dict
use fish_async_task.Prelude.Dict.{Dict}
use fish_async_task.Monitoring.{PerformanceMetrics, Metrics, new, reset, get_metrics}
use fish_async_task.Monitoring.Events.{Event, submitted, completed, failed, note_all}
use fish_async_task.Monitoring.History.{Totals, Recent, note_all-described}
use fish_async_task.Monitoring.Health.{Check, register_default_health_checks, update_health_status}
use fish_async_task.Monitoring.Health
use fish_async_task.Monitoring.Health.Judged.{EachJudged, update_health_status-EachJudged}
use fish_async_task.CleanupThread.{
  Waited, tenths, wait_with_interrupt_check, Outcome, io_error, other_error, LoopState,
  cleanup_loop,
}
use fish_async_task.CleanupThread.Waiting.{Ends, wait_with_interrupt_check-Ends}
use fish_async_task.CleanupThread.Errors.{Described, cleanup_loop-Described}
use fish_async_task.TaskManager.Instances.{Registry}
use fish_async_task.TaskManager.Instances.Racing.{Step, calls, enters, reads}
use fish_async_task.Config.{
  Environment, load_configurations, load_adaptive_worker_config, load_performance_config,
}
use fish_async_task.Config.Bounds.{AllWithin, loaded-AllWithin}
use fish_async_task.Config.HotReload.{HotReloadConfig}

abbrev fresh : PerformanceMetrics
fresh = new 2 0

abbrev day : List Event
day = submitted ∷ completed 5 1 ∷ submitted ∷ failed 7 2 ∷ completed 9 0 ∷ []

note_all-described_example :
    Totals day (note_all day (reset 4 fresh))
    × Recent fresh.max_history day (note_all day (reset 4 fresh))
note_all-described_example = note_all-described 4 fresh day

abbrev metrics : Metrics
metrics = get_metrics 10 (note_all day (reset 4 fresh))

update_health_status-EachJudged_example :
    EachJudged metrics Health.new (update_health_status metrics Health.new)
unfolding Health.new register_default_health_checks Health.register_health_check Dict.insert
    Dict.has
update_health_status-EachJudged_example =
    update_health_status-EachJudged metrics Health.new (refl, (refl, (refl, tt)))

-- The event is cleared at the reading number 3.
abbrev cleared_soon : ℕ → Bool
cleared_soon n = ltb n 3

wait_with_interrupt_check-Ends_example :
    (w : Waited) × (wait_with_interrupt_check cleared_soon 5 1
      ≡ (cleared_soon w.readings, record w { readings = suc w.readings }))
    × Ends cleared_soon (tenths 5) (record { waited = 0; readings = 1 }) w
wait_with_interrupt_check-Ends_example = wait_with_interrupt_check-Ends cleared_soon 5 1

abbrev begun : LoopState
begun = record { consecutive_errors = 0; too_many_warnings = 0; calls = 0; readings = 0 }

abbrev failing : List Outcome
failing = io_error ∷ other_error ∷ io_error ∷ []

cleanup_loop-Described_example :
    Described cleared_soon failing begun (cleanup_loop cleared_soon 5 failing begun)
cleanup_loop-Described_example = cleanup_loop-Described cleared_soon 5 failing begun

abbrev one_instance : Registry
one_instance = record {
  instances = ("default", 0) ∷ [];
  objects = record { instance_key = "default"; running = true } ∷ [];
}

-- Both threads find no instance before one of them makes it.
abbrev race : List (ℕ × Step)
race =
    (1, calls "order")
    ∷ (2, calls "order")
    ∷ (1, enters)
    ∷ (1, reads)
    ∷ (3, calls "pay")
    ∷ (2, enters)
    ∷ (3, enters)
    ∷ (2, reads)
    ∷ []

abbrev the_first : Option ℕ
the_first = some 0

-- Every variable is set to a number that is too large.
abbrev env : Environment
env = record {
  getenv = λ k. some "99999999";
  int_of = λ s. some (pos 99999999);
  float_of = λ s. none;
  normalized = λ s. s;
}

loaded-AllWithin_example :
    AllWithin
      (load_configurations env)
      (load_adaptive_worker_config env)
      (load_performance_config env)
loaded-AllWithin_example = loaded-AllWithin env

abbrev one_parser : HotReloadConfig ℕ
one_parser = record {
  reload_interval = 60;
  last_reload = 0;
  config_cache = [];
  config_parsers = ("size", some 1) ∷ [];
  parser_calls = [];
}
