-- ===== src/Dependencies/Readiness.antt =====
-- An abstract account of the calls made so far, by which `is_ready` is measured.
use fish_async_task.Prelude.{
  String, ◌≡◌, ◌↔◌, refl, ◌∙◌, sym, Bool, true, false, not, ◌&&◌, ◌||◌, ◌==◌, List, [], ◌∷◌, arith,
  eq_iff,
}
use fish_async_task.Prelude.Dict
use fish_async_task.Prelude.Dict.{Dict}
use fish_async_task.Prelude.StringSet
use fish_async_task.Prelude.StringSet.{
  contains-add, contains-discard, contains_ext, issubset_sound, issubset_complete,
}
use fish_async_task.Dependencies.{
  TaskDependencyManager, new, entry, set_default, add_at, discard_at, add_deps, add_dependency,
  discard_from, mark_completed, mark_failed, is_ready, clear, entry-insert, entry_missing,
}

-- The calls that change the manager.
pub data Call : Type 0 where
  adds : String → List String → Call
  completes fails : String → Call
  clears : Call

pub step : TaskDependencyManager → Call → TaskDependencyManager
step m (adds k xs) = add_dependency m k xs
step m (completes k) = mark_completed m k
step m (fails k) = mark_failed m k
step m clears = clear m

pub run : TaskDependencyManager → List Call → TaskDependencyManager
run m [] = m
run m (c ∷ cs) = run (step m c) cs

-- Which dependencies were declared, and which tasks were reported complete, since the last `clear`.
pub record Account : Type 0 where
  pub declared : String → String → Bool
  pub complete : String → Bool

abbrev pub nothing : Account
nothing = record { declared = λ t d. false; complete = λ t. false }

abbrev pub note : Account → Call → Account
note a (adds k xs) = record a {
  declared = λ t d. ((k == t) && StringSet.contains d xs) || a.declared t d;
}
note a (completes k) = record a { complete = λ t. (k == t) || a.complete t }
note a (fails k) = a
note a clears = nothing

abbrev pub account : Account → List Call → Account
account a [] = a
account a (c ∷ cs) = account (note a c) cs

-- The manager forgets a declared dependency only when it is complete, and invents none.
record Tracks (m : TaskDependencyManager) (a : Account) : Type 0 where
  same_complete : (d : String) → StringSet.contains d m.completed_tasks ≡ a.complete d
  sound :
      (t d : String) → StringSet.contains d (entry t m.dependencies) ≡ true → a.declared t d ≡ true
  covered :
      (t d : String)
      → a.declared t d ≡ true
      → (StringSet.contains d (entry t m.dependencies) || a.complete d) ≡ true

new-Tracks : Tracks new nothing
unfolding new entry Dict.lookup StringSet.contains
new-Tracks = record {
  same_complete = λ d. refl;
  sound = λ t d h. h;
  covered = λ t d h. ground arith;
}

entry_ext : (k t : String) (d : Dict (List String)) → k ≡ t → entry k d ≡ entry t d
entry_ext k t d e = λ i. entry (e i) d

entry-set_default : (k t : String) (d : Dict (List String)) → entry t (set_default k d) ≡ entry t d
unfolding set_default
entry-set_default k t d =
    ground (arith, entry-insert k t [] d, entry_missing k d, eq_iff k t, entry_ext k t d)

contains-add_at :
    (k x t y : String) (d : Dict (List String))
    → StringSet.contains y (entry t (add_at k x d))
      ≡ (((k == t) && (x == y)) || StringSet.contains y (entry t d))
unfolding add_at
contains-add_at k x t y d = ground (
  arith,
  entry-insert k t (StringSet.add x (entry k d)) d,
  contains-add x y (entry k d),
  eq_iff k t,
  entry_ext k t d,
)

add_deps-first :
    (k : String) (xs : List String) (d e : Dict (List String)) (t y : String)
    → StringSet.contains y (entry t (add_deps k xs (d, e)).0)
      ≡ (((k == t) && StringSet.contains y xs) || StringSet.contains y (entry t d))
unfolding add_deps StringSet.contains
add_deps-first k [] d e t y = ground arith
add_deps-first k (x ∷ xs) d e t y =
    add_deps-first k xs (add_at k x d) (add_at x k (set_default x e)) t y
    ∙ ground (arith, contains-add_at k x t y d)

contains-declared :
    (k : String) (xs : List String) (m : TaskDependencyManager) (t y : String)
    → StringSet.contains y (entry t (add_deps k xs (set_default k m.dependencies, m.dependents)).0)
      ≡ (((k == t) && StringSet.contains y xs) || StringSet.contains y (entry t m.dependencies))
contains-declared k xs m t y =
    add_deps-first k xs (set_default k m.dependencies) m.dependents t y
    ∙ ground (arith, entry-set_default k t m.dependencies)

contains-discard_at :
    (s k : String) (d : Dict (List String)) (t y : String)
    → StringSet.contains y (entry t (discard_at s k d))
      ≡ (not ((s == t) && (k == y)) && StringSet.contains y (entry t d))
unfolding discard_at StringSet.contains
contains-discard_at s k d t y = ground (
  arith,
  entry-insert s t (StringSet.discard k (entry s d)) d,
  contains-discard k y (entry s d),
  entry_missing s d,
  eq_iff s t,
  entry_ext s t d,
)

contains-discard_from :
    (k : String) (ts : List String) (d : Dict (List String)) (t y : String)
    → ((StringSet.contains y (entry t (discard_from k ts d)) ≡ true)
        → StringSet.contains y (entry t d) ≡ true)
      × (StringSet.contains y (entry t d) ≡ true
          → (StringSet.contains y (entry t (discard_from k ts d)) || (k == y)) ≡ true)
unfolding discard_from
contains-discard_from k [] d t y = (λ h. h, λ h. ground arith)
contains-discard_from k (s ∷ ts) d t y =
    let rest = contains-discard_from k ts (discard_at s k d) t y in
    (
      λ h. ground (arith, rest.0 h, contains-discard_at s k d t y),
      λ h. ground (arith, rest.1, contains-discard_at s k d t y),
    )

step-Tracks :
    (m : TaskDependencyManager) (a : Account) (c : Call) → Tracks m a → Tracks (step m c) (note a c)
unfolding step add_dependency mark_completed mark_failed clear
step-Tracks m a (adds k xs) r = record {
  same_complete = r.same_complete;
  sound = λ t d h. ground (arith, contains-declared k xs m t d, r.sound t d);
  covered = λ t d h. ground (arith, contains-declared k xs m t d, r.covered t d);
}
step-Tracks m a (completes k) r = record {
  same_complete = λ d. contains-add k d m.completed_tasks ∙ ground (arith, r.same_complete d);
  sound = λ t d h.
      ground
        (arith, r.sound t d, (contains-discard_from k (entry k m.dependents) m.dependencies t d).0);
  covered = λ t d h. ground (
    arith,
    r.covered t d h,
    (contains-discard_from k (entry k m.dependents) m.dependencies t d).1,
  );
}
step-Tracks m a (fails k) r = record {
  same_complete = r.same_complete;
  sound = r.sound;
  covered = r.covered;
}
step-Tracks m a clears r = unfold new in new-Tracks

run-Tracks :
    (m : TaskDependencyManager) (a : Account) (cs : List Call)
    → Tracks m a
    → Tracks (run m cs) (account a cs)
unfolding run
run-Tracks m a [] r = r
run-Tracks m a (c ∷ cs) r = run-Tracks (step m c) (note a c) cs (step-Tracks m a c r)

is_ready-eq_issubset :
    (m : TaskDependencyManager) (t : String)
    → is_ready m t ≡ StringSet.issubset (entry t m.dependencies) m.completed_tasks
unfolding is_ready StringSet.issubset
is_ready-eq_issubset m t = ground (arith, entry_missing t m.dependencies)

Tracks-is_ready :
    (m : TaskDependencyManager) (a : Account) (t : String)
    → Tracks m a
    → (is_ready m t ≡ true) ↔ ((d : String) → a.declared t d ≡ true → a.complete d ≡ true)
Tracks-is_ready m a t r = (
  λ h d e. ground (
    arith,
    r.covered t d e,
    r.same_complete d,
    issubset_sound (entry t m.dependencies) m.completed_tasks d
        (sym (is_ready-eq_issubset m t) ∙ h),
  ),
  λ f.
      is_ready-eq_issubset m t
      ∙ issubset_complete (entry t m.dependencies) m.completed_tasks
          (λ d e. r.same_complete d ∙ f d (r.sound t d e)),
)

-- Whatever calls were made on a new manager, a task is ready exactly when each dependency that was
-- declared for it since the last `clear` was reported complete since then.
pub is_ready-run :
    (cs : List Call) (t : String)
    → (is_ready (run new cs) t ≡ true) ↔ (
        (d : String)
        → (account nothing cs).declared t d ≡ true
        → (account nothing cs).complete d ≡ true)
is_ready-run cs t =
    Tracks-is_ready (run new cs) (account nothing cs) t (run-Tracks new nothing cs new-Tracks)
