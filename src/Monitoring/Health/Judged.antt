-- ===== src/Monitoring/Health/Judged.antt =====
-- What `update_health_status` makes of each check and of all of them.
use fish_async_task.Prelude.{
  ◌≡◌, refl, ◌∙◌, ap, String, ◌==◌, eq_iff, eq_refl, Bool, true, false, ◌||◌, none, some, [], ◌∷◌,
  arith, any, if◌then◌else◌, Bool-cases, inl, inr,
}
use fish_async_task.Prelude.Dict
use fish_async_task.Prelude.Dict.{Dict, lookup-insert, has-eq_lookup, lookup_ext}
use fish_async_task.Monitoring.{Metrics}
use fish_async_task.Monitoring.Health.{
  HealthStatus, green, yellow, red, Check, CheckResult, Outcome, measured, raised, success, error,
  Progress, status_of, raise_overall, update_check, update_checks, update_health_status, view,
  get_health_status,
}

-- What one check comes to, by itself.
abbrev pub judged : Check → Outcome → CheckResult
judged c (measured value) = success value (status_of c value) c.status_warning c.status_critical
judged c (raised message) = error red message

abbrev pub judged_status : Check → Outcome → HealthStatus
judged_status c (measured value) = status_of c value
judged_status c (raised message) = red

-- What the monitor remembers of it: an exception leaves what it had.
abbrev pub remembered : Check → Outcome → Check
remembered c (measured value) = record c { current_value = some value; status = status_of c value }
remembered c (raised message) = c

abbrev is_red : HealthStatus → Bool
is_red red = true
is_red yellow = false
is_red green = false

abbrev is_yellow : HealthStatus → Bool
is_yellow red = false
is_yellow yellow = true
is_yellow green = false

-- Whether some check comes to such a status.
abbrev some_check : (HealthStatus → Bool) → Metrics → Dict Check → Bool
some_check p metrics checks = any (λ e. p (judged_status e.1 (e.1.value_func metrics))) checks

-- The worst status.
abbrev pub worst : (has_red has_yellow : Bool) → HealthStatus
worst has_red has_yellow = if has_red then red else (if has_yellow then yellow else green)

overall-update_check :
    (metrics : Metrics) (name : String) (c : Check) (o : Outcome) (p : Progress)
    → (update_check metrics name c o p).overall_status
      ≡ raise_overall p.overall_status (judged_status c o)
unfolding update_check
overall-update_check metrics name c (measured value) p = refl
overall-update_check metrics name c (raised message) p = refl

raise_overall-worst :
    (s t : HealthStatus) (r y : Bool)
    → worst (is_red (raise_overall s t) || r) (is_yellow (raise_overall s t) || y)
      ≡ worst (is_red s || (is_red t || r)) (is_yellow s || (is_yellow t || y))
raise_overall-worst green green r y = refl
raise_overall-worst green yellow r y = refl
raise_overall-worst green red r y = refl
raise_overall-worst yellow green r y = refl
raise_overall-worst yellow yellow r y = refl
raise_overall-worst yellow red r y = refl
raise_overall-worst red green r y = refl
raise_overall-worst red yellow r y = refl
raise_overall-worst red red r y = refl

own_worst : (s : HealthStatus) → s ≡ worst (is_red s || false) (is_yellow s || false)
own_worst green = refl
own_worst yellow = refl
own_worst red = refl

overall-update_checks :
    (metrics : Metrics) (checks : Dict Check) (p : Progress)
    → (update_checks metrics checks p).overall_status
      ≡ worst
          (is_red p.overall_status || some_check is_red metrics checks)
          (is_yellow p.overall_status || some_check is_yellow metrics checks)
unfolding update_checks
overall-update_checks metrics [] p = own_worst p.overall_status
overall-update_checks metrics ((name, c) ∷ checks) p =
    let o = c.value_func metrics in
    overall-update_checks metrics checks (update_check metrics name c o p)
    ∙ ap
        (λ s.
          worst (is_red s || some_check is_red metrics checks)
            (is_yellow s || some_check is_yellow metrics checks))
        (overall-update_check metrics name c o p)
    ∙ raise_overall-worst p.overall_status (judged_status c o) (some_check is_red metrics checks)
        (some_check is_yellow metrics checks)

-- Looking up `k` after a check was put under `name`.
results-update_check :
    (metrics : Metrics) (name k : String) (c : Check) (o : Outcome) (p : Progress)
    → Dict.lookup k (update_check metrics name c o p).check_results
      ≡ (if name == k then some (judged c o) else Dict.lookup k p.check_results)
unfolding update_check
results-update_check metrics name k c (measured value) p = lookup-insert name k _ p.check_results
results-update_check metrics name k c (raised message) p = lookup-insert name k _ p.check_results

checks-update_check :
    (metrics : Metrics) (name k : String) (c : Check) (o : Outcome) (p : Progress)
    → Dict.lookup name p.health_checks ≡ some c
    → Dict.lookup k (update_check metrics name c o p).health_checks
      ≡ (if name == k then some (remembered c o) else Dict.lookup k p.health_checks)
unfolding update_check
checks-update_check metrics name k c (measured value) p h = lookup-insert name k _ p.health_checks
checks-update_check metrics name k c (raised message) p h =
    ground (arith, eq_iff name k, lookup_ext name k p.health_checks)

results-update_checks :
    (metrics : Metrics) (checks : Dict Check) (p : Progress) (k : String)
    → Dict.HasUniqueKeys checks
    → Dict.lookup k (update_checks metrics checks p).check_results ≡ elim (Dict.lookup k checks) [
      | none ↦ Dict.lookup k p.check_results
      | some c ↦ some (judged c (c.value_func metrics))
    ]
unfolding update_checks Dict.lookup
results-update_checks metrics [] p k u = refl
results-update_checks metrics ((name, c) ∷ checks) p k u =
    let o = c.value_func metrics in
    ground (
      arith,
      results-update_checks metrics checks (update_check metrics name c o p) k u.1,
      results-update_check metrics name k c o p,
      eq_iff name k,
      lookup_ext name k checks,
      has-eq_lookup name checks,
    )

checks-update_checks :
    (metrics : Metrics) (checks : Dict Check) (p : Progress) (k : String)
    → Dict.HasUniqueKeys checks
    → ((j : String) (c : Check)
        → Dict.lookup j checks ≡ some c
        → Dict.lookup j p.health_checks ≡ some c)
    → Dict.lookup k (update_checks metrics checks p).health_checks ≡ elim (Dict.lookup k checks) [
      | none ↦ Dict.lookup k p.health_checks
      | some c ↦ some (remembered c (c.value_func metrics))
    ]
unfolding update_checks Dict.lookup
checks-update_checks metrics [] p k u h = refl
checks-update_checks metrics ((name, c) ∷ checks) p k u h =
    let o = c.value_func metrics in
    let stored : Dict.lookup name p.health_checks ≡ some c =
      h name c (ground (arith, eq_refl name)) in
    ground (
      arith,
      checks-update_checks metrics checks (update_check metrics name c o p) k u.1 (λ j c' l.
          checks-update_check metrics name j c o p stored
          ∙ ground
              (arith, h j c', eq_iff name j, lookup_ext name j checks, has-eq_lookup name checks)),
      checks-update_check metrics name k c o p stored,
      eq_iff name k,
      lookup_ext name k checks,
      has-eq_lookup name checks,
    )

lookup-get_health_status :
    (k : String) (checks : Dict Check) (c : Check)
    → Dict.lookup k checks ≡ some c
    → Dict.lookup k (get_health_status checks) ≡ some (view c)
unfolding get_health_status Dict.lookup
lookup-get_health_status k [] c h = absurd (ground arith)
lookup-get_health_status k ((name, c') ∷ checks) c h = elim (Bool-cases (name == k)) [
  | inl this ↦ rw this (ground (arith, this))
  | inr other ↦ rw other (lookup-get_health_status k checks c (ground arith))
]

-- The result of an update, and the monitor behind it.
pub record EachJudged (metrics : Metrics) (checks : Dict Check) (p : Progress) : Type 0 where
  pub results :
      (k : String) (c : Check)
      → Dict.lookup k checks ≡ some c
      → Dict.lookup k p.check_results ≡ some (judged c (c.value_func metrics))
  pub views :
      (k : String) (c : Check)
      → Dict.lookup k checks ≡ some c
      → Dict.lookup k (get_health_status p.health_checks)
        ≡ some (view (remembered c (c.value_func metrics)))
  pub overall :
      p.overall_status
      ≡ worst (some_check is_red metrics checks) (some_check is_yellow metrics checks)

-- `update_health_status` judges each check by itself, an exception as red, and the overall status
-- is the worst of them, where the names of the checks are distinct. `get_health_status` reports
-- then what was judged, but for a check that raised an exception, which it reports as before.
pub update_health_status-EachJudged :
    (metrics : Metrics) (checks : Dict Check)
    → Dict.HasUniqueKeys checks
    → EachJudged metrics checks (update_health_status metrics checks)
unfolding update_health_status
update_health_status-EachJudged metrics checks u =
    let p : Progress = record {
      overall_status = green;
      check_results = [];
      health_checks = checks;
    } in
    record {
      results = λ k c h. results-update_checks metrics checks p k u ∙ rw h refl;
      views = λ k c h.
          lookup-get_health_status k (update_checks metrics checks p).health_checks
            (remembered c (c.value_func metrics))
            (checks-update_checks metrics checks p k u (λ j c' l. l) ∙ rw h refl);
      overall = overall-update_checks metrics checks p;
    }
