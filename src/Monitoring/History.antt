-- ===== src/Monitoring/History.antt =====
-- The counters against the whole history of what was recorded.
use fish_async_task.Prelude.{
  ℕ, ◌+◌, ◌-◌, ◌≡◌, refl, ◌∙◌, sym, ap, subst, List, [], ◌∷◌, ◌++◌, arith, length, length-append,
  length-drop, drop, drop_beyond, drop-nil, drop-drop,
}
use mathlib.Core.List.{append-nil, append_assoc}
use fish_async_task.Monitoring.{
  PerformanceMetrics, sum, last, append, record_task_submitted, record_task_completed,
  record_task_failed, record_task_cancelled, record_cleanup, reset,
}
use fish_async_task.Monitoring.Events.{
  Event, submitted, cancelled, completed, failed, cleaned, note, note_all, submissions,
  cancellations, completions, failures, removals, execution, waiting, cleaning, total, all_of,
}

module _ {A : Type 0} where
  -- What is dropped early would be dropped in the end.
  last-last : (n : ℕ) (xs ys : List A) → last n (last n xs ++ ys) ≡ last n (xs ++ ys)
  last-last n xs ys =
      let early : ℕ = length xs - n in
      let late : ℕ = length (drop early xs ++ ys) - n in
      let counted : early + late ≡ length (xs ++ ys) - n = omega (
        arith,
        length-append {0} xs ys,
        length-append {0} (drop early xs) ys,
        length-drop {0} early xs,
      ) in
      ap (drop late) (drop_beyond early xs ys (omega arith))
      ∙ drop-drop late early (xs ++ ys)
      ∙ ap (λ k. drop k (xs ++ ys)) counted

total-snoc :
    (f : Event → ℕ) (es : List Event) (e : Event) → total f (es ++ (e ∷ [])) ≡ total f es + f e
total-snoc f [] e = omega arith
total-snoc f (e' ∷ es) e = omega (arith, total-snoc f es e)

all_of-snoc :
    (f : Event → List ℕ) (es : List Event) (e : Event)
    → all_of f (es ++ (e ∷ [])) ≡ all_of f es ++ f e
all_of-snoc f [] e = append-nil (f e)
all_of-snoc f (e' ∷ es) e =
    ap (λ l. f e' ++ l) (all_of-snoc f es e) ∙ sym (append_assoc (f e') (all_of f es) (f e))

sum-append : (xs ys : List ℕ) → sum (xs ++ ys) ≡ sum xs + sum ys
sum-append [] ys = omega arith
sum-append (x ∷ xs) ys = omega (arith, sum-append xs ys)

-- The numbers are totals over the events that were recorded.
abbrev pub Totals : List Event → PerformanceMetrics → Type 0
Totals es m =
    (m.tasks_submitted ≡ total submissions es)
    × (m.tasks_completed ≡ total completions es)
    × (m.tasks_failed ≡ total failures es)
    × (m.tasks_cancelled ≡ total cancellations es)
    × (m.cleanup_count ≡ total removals es)
    × (m.total_execution_time ≡ sum (all_of execution es))
    × (m.total_queue_wait_time ≡ sum (all_of waiting es))
    × (m.total_cleanup_time ≡ sum (all_of cleaning es))

-- The lists are the last `max_history` times, the oldest first.
pub record Recent (max_history : ℕ) (es : List Event) (m : PerformanceMetrics) : Type 0 where
  pub size : m.max_history ≡ max_history
  pub execution_times : m.execution_times ≡ last max_history (all_of execution es)
  pub queue_wait_times : m.queue_wait_times ≡ last max_history (all_of waiting es)
  pub cleanup_times : m.cleanup_times ≡ last max_history (all_of cleaning es)

sum-snoc :
    (f : Event → List ℕ) (es : List Event) (e : Event)
    → sum (all_of f (es ++ (e ∷ []))) ≡ sum (all_of f es) + sum (f e)
sum-snoc f es e = ap sum (all_of-snoc f es e) ∙ sum-append (all_of f es) (f e)

-- What an event adds to each of them.
snocs :
    (es : List Event) (e : Event)
    → (let es' = es ++ (e ∷ []) in
        (total submissions es' ≡ total submissions es + submissions e)
        × (total completions es' ≡ total completions es + completions e)
        × (total failures es' ≡ total failures es + failures e)
        × (total cancellations es' ≡ total cancellations es + cancellations e)
        × (total removals es' ≡ total removals es + removals e)
        × (sum (all_of execution es') ≡ sum (all_of execution es) + sum (execution e))
        × (sum (all_of waiting es') ≡ sum (all_of waiting es) + sum (waiting e))
        × (sum (all_of cleaning es') ≡ sum (all_of cleaning es) + sum (cleaning e)))
snocs es e = (
  total-snoc submissions es e,
  total-snoc completions es e,
  total-snoc failures es e,
  total-snoc cancellations es e,
  total-snoc removals es e,
  sum-snoc execution es e,
  sum-snoc waiting es e,
  sum-snoc cleaning es e,
)

note-Totals :
    (es : List Event) (e : Event) (m : PerformanceMetrics)
    → Totals es m
    → Totals (es ++ (e ∷ [])) (note e m)
unfolding note record_task_submitted record_task_completed record_task_failed record_task_cancelled
    record_cleanup
note-Totals es submitted m t = ground (arith, snocs es submitted)
note-Totals es cancelled m t = ground (arith, snocs es cancelled)
note-Totals es (completed e q) m t = ground (arith, snocs es (completed e q))
note-Totals es (failed e q) m t = ground (arith, snocs es (failed e q))
note-Totals es (cleaned c n) m t = ground (arith, snocs es (cleaned c n))

extended :
    (f : Event → List ℕ) (es : List Event) (e : Event) (n : ℕ) (xs : List ℕ)
    → xs ≡ last n (all_of f es)
    → last n (xs ++ f e) ≡ last n (all_of f (es ++ (e ∷ [])))
extended f es e n xs h =
    ap (λ l. last n (l ++ f e)) h
    ∙ last-last n (all_of f es) (f e)
    ∙ ap (last n) (sym (all_of-snoc f es e))

unextended :
    (f : Event → List ℕ) (es : List Event) (e : Event) (n : ℕ) (xs : List ℕ)
    → f e ≡ []
    → xs ≡ last n (all_of f es)
    → xs ≡ last n (all_of f (es ++ (e ∷ [])))
unextended f es e n xs none h =
    h
    ∙ ap (last n) (
        sym (append-nil (all_of f es))
        ∙ ap (λ l. all_of f es ++ l) (sym none)
        ∙ sym (all_of-snoc f es e))

note-Recent :
    (n : ℕ) (es : List Event) (e : Event) (m : PerformanceMetrics)
    → Recent n es m
    → Recent n (es ++ (e ∷ [])) (note e m)
unfolding note record_task_submitted record_task_completed record_task_failed record_task_cancelled
    record_cleanup
note-Recent n es e m r = go e
  where
    timed :
        (t : ℕ) (f : Event → List ℕ) (e : Event) (xs : List ℕ)
        → f e ≡ t ∷ []
        → xs ≡ last n (all_of f es)
        → append m.max_history xs t ≡ last n (all_of f (es ++ (e ∷ [])))
    timed t f e xs one h =
        ap (λ k. append k xs t) r.size
        ∙ ap (λ l. last n (xs ++ l)) (sym one)
        ∙ extended f es e n xs h

    untimed :
        (f : Event → List ℕ) (e : Event) (xs : List ℕ)
        → f e ≡ []
        → xs ≡ last n (all_of f es)
        → xs ≡ last n (all_of f (es ++ (e ∷ [])))
    untimed f e xs none h = unextended f es e n xs none h

    go : (e : Event) → Recent n (es ++ (e ∷ [])) (note e m)
    go submitted = record {
      size = r.size;
      execution_times = untimed execution submitted m.execution_times refl r.execution_times;
      queue_wait_times = untimed waiting submitted m.queue_wait_times refl r.queue_wait_times;
      cleanup_times = untimed cleaning submitted m.cleanup_times refl r.cleanup_times;
    }
    go cancelled = record {
      size = r.size;
      execution_times = untimed execution cancelled m.execution_times refl r.execution_times;
      queue_wait_times = untimed waiting cancelled m.queue_wait_times refl r.queue_wait_times;
      cleanup_times = untimed cleaning cancelled m.cleanup_times refl r.cleanup_times;
    }
    go (completed t q) = record {
      size = r.size;
      execution_times = timed t execution (completed t q) m.execution_times refl r.execution_times;
      queue_wait_times = timed q waiting (completed t q) m.queue_wait_times refl r.queue_wait_times;
      cleanup_times = untimed cleaning (completed t q) m.cleanup_times refl r.cleanup_times;
    }
    go (failed t q) = record {
      size = r.size;
      execution_times = timed t execution (failed t q) m.execution_times refl r.execution_times;
      queue_wait_times = timed q waiting (failed t q) m.queue_wait_times refl r.queue_wait_times;
      cleanup_times = untimed cleaning (failed t q) m.cleanup_times refl r.cleanup_times;
    }
    go (cleaned t c) = record {
      size = r.size;
      execution_times = untimed execution (cleaned t c) m.execution_times refl r.execution_times;
      queue_wait_times = untimed waiting (cleaned t c) m.queue_wait_times refl r.queue_wait_times;
      cleanup_times = timed t cleaning (cleaned t c) m.cleanup_times refl r.cleanup_times;
    }

-- What was recorded before and then.
abbrev Describes : ℕ → List Event → PerformanceMetrics → Type 0
Describes n es m = Totals es m × Recent n es m

note_all-Describes :
    (n : ℕ) (past es : List Event) (m : PerformanceMetrics)
    → Describes n past m
    → Describes n (past ++ es) (note_all es m)
unfolding note_all
note_all-Describes n past [] m d = subst (λ l. Describes n l m) (sym (append-nil past)) d
note_all-Describes n past (e ∷ es) m d =
    subst (λ l. Describes n l (note_all es (note e m))) (append_assoc past (e ∷ []) es)
      (note_all-Describes n (past ++ (e ∷ [])) es (note e m)
        (note-Totals past e m d.0, note-Recent n past e m d.1))

reset-Describes : (now : ℕ) (m : PerformanceMetrics) → Describes m.max_history [] (reset now m)
unfolding reset
reset-Describes now m = (
  (refl, refl, refl, refl, refl, refl, refl, refl),
  record {
    size = refl;
    execution_times = sym (drop-nil (0 - m.max_history));
    queue_wait_times = sym (drop-nil (0 - m.max_history));
    cleanup_times = sym (drop-nil (0 - m.max_history));
  },
)

-- After a reset, whatever is recorded then, the counters are the numbers of the events of each
-- kind, the total times are the sums of the times that were recorded, those of failed tasks among
-- them, and each list holds the last `max_history` times of its kind.
pub note_all-described :
    (now : ℕ) (m : PerformanceMetrics) (es : List Event)
    → Totals es (note_all es (reset now m)) × Recent m.max_history es (note_all es (reset now m))
note_all-described now m es =
    note_all-Describes m.max_history [] es (reset now m) (reset-Describes now m)
