-- ===== src/Resources/Cleanup.antt =====
-- What `cleanup_task_resources` takes out.
use fish_async_task.Prelude.{
  ℕ, suc, ◌+◌, ◌≡◌, refl, ◌∙◌, ap, String, ◌==◌, eq_iff, eq_refl, false, Option, none, some, List,
  [], ◌∷◌, arith, if◌then◌else◌, length,
}
use fish_async_task.Prelude.Dict.{Dict}
use fish_async_task.Prelude.Dict
use fish_async_task.Prelude.StringSet
use fish_async_task.Resources.{
  TaskResource, TaskResourceManager, clean, or_empty, clean_found, clean_ids, cleanup_found,
  cleanup_task_resources,
}

module _ {A : Type 0} where
  -- What the loop over the ids `ks` makes of the tracked resources, and how many it counts.
  record Removed (ks : List String) (n : ℕ) (m : TaskResourceManager A)
      (r : ℕ × TaskResourceManager A) : Type 0 where
    found :
        (j : String)
        → Dict.lookup j r.1.resources
          ≡ (if StringSet.contains j ks then none else Dict.lookup j m.resources)
    counted : r.0 + length r.1.resources ≡ n + length m.resources
    same_tasks : r.1.task_resources ≡ m.task_resources

  Removed-missing :
      (k : String) (ks : List String) (n : ℕ) (m : TaskResourceManager A)
      (r : ℕ × TaskResourceManager A)
      → Dict.lookup k m.resources ≡ none
      → Removed ks n m r
      → Removed (k ∷ ks) n m r
  unfolding StringSet.contains
  Removed-missing k ks n m r missing h = record {
    found = λ j. ground (arith, h.found j, eq_iff k j, missing);
    counted = h.counted;
    same_tasks = h.same_tasks;
  }

  Removed-present :
      (k : String) (ks : List String) (n : ℕ) (q : TaskResource A) (m : TaskResourceManager A)
      (r : ℕ × TaskResourceManager A)
      → Dict.HasUniqueKeys m.resources
      → Dict.lookup k m.resources ≡ some q
      → Removed ks (suc n) (clean k q m) r
      → Removed (k ∷ ks) n m r
  unfolding StringSet.contains clean
  Removed-present k ks n q m r u present h = record {
    found = λ j. ground (arith, h.found j, eq_iff k j, Dict.lookup-delete k j m.resources);
    counted = ground (
      arith,
      h.counted,
      Dict.length-delete k m.resources u,
      Dict.has-eq_lookup k m.resources,
      present,
    );
    same_tasks = h.same_tasks;
  }

  clean_ids-Removed :
      (ks : List String) (n : ℕ) (m : TaskResourceManager A)
      → Dict.HasUniqueKeys m.resources
      → Removed ks n m (clean_ids ks (n, m))
  unfolding clean_ids clean StringSet.contains
  clean_ids-Removed [] n m u = record { found = λ j. refl; counted = refl; same_tasks = refl }
  clean_ids-Removed (k ∷ ks) n m u =
      elim (Dict.lookup k m.resources)
          as (λ o.
            Dict.lookup k m.resources ≡ o
            → Removed (k ∷ ks) n m (clean_ids ks (clean_found k (n, m) o))) [
              | none ↦
                  λ e. Removed-missing k ks n m (clean_ids ks (n, m)) e (clean_ids-Removed ks n m u)
              | some q ↦ λ e. Removed-present k ks n q m (clean_ids ks (suc n, clean k q m)) u e (
                  clean_ids-Removed ks (suc n) (clean k q m)
                    (Dict.delete-HasUniqueKeys k m.resources u))
            ]
        refl

  -- What `cleanup_task_resources` of a task makes of the manager.
  pub record Cleaned (k : String) (m : TaskResourceManager A) (r : ℕ × TaskResourceManager A)
      : Type 0 where
    pub resources :
        (j : String)
        → Dict.lookup j r.1.resources ≡ (
            if StringSet.contains j (or_empty (Dict.lookup k m.task_resources))
            then none
            else Dict.lookup j m.resources)
    pub count : r.0 + length r.1.resources ≡ length m.resources
    pub forgotten : Dict.lookup k r.1.task_resources ≡ none
    pub other_tasks :
        (j : String)
        → (k == j) ≡ false
        → Dict.lookup j r.1.task_resources ≡ Dict.lookup j m.task_resources

  cleanup_found-Cleaned :
      (k : String) (m : TaskResourceManager A) (o : Option (List String))
      → Dict.HasUniqueKeys m.resources
      → Dict.lookup k m.task_resources ≡ o
      → Cleaned k m (cleanup_found k m o)
  unfolding StringSet.contains
  cleanup_found-Cleaned k m none u e = record {
    resources = λ j. rw e refl;
    count = omega arith;
    forgotten = e;
    other_tasks = λ j h. refl;
  }
  cleanup_found-Cleaned k m (some ids) u e =
      let r = clean_ids-Removed ids 0 m u in
      let d = (clean_ids ids (0, m)).1.task_resources in
      record {
        resources = λ j. rw e (r.found j);
        count = omega (arith, r.counted);
        forgotten = ground (arith, Dict.lookup-delete k k d, eq_refl k);
        other_tasks = λ j h. Dict.lookup-delete k j d ∙ rw h (ap (Dict.lookup j) r.same_tasks);
      }

  -- While each resource is tracked once, `cleanup_task_resources` takes out exactly the resources
  -- whose ids are in the set of the task, forgets the task and no other, and returns the number of
  -- the resources that it takes out, 0 for an unknown task included.
  pub cleanup_task_resources-Cleaned :
      (k : String) (m : TaskResourceManager A)
      → Dict.HasUniqueKeys m.resources
      → Cleaned k m (cleanup_task_resources k m)
  unfolding cleanup_task_resources
  cleanup_task_resources-Cleaned k m u =
      cleanup_found-Cleaned k m (Dict.lookup k m.task_resources) u refl
