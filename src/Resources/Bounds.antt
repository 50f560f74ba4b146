-- ===== src/Resources/Bounds.antt =====
-- How many resources the manager tracks.
use fish_async_task.Prelude.{
  ℕ, suc, ◌≤◌, ◌<◌, ◌≡◌, refl, ◌∙◌, sym, String, ◌==◌, eq_refl, true, ◌||◌, Option, none, some,
  List, [], ◌∷◌, arith, leb, length, take, Bool-cases, inl, inr,
}
use fish_async_task.Prelude.Dict.{Dict}
use fish_async_task.Prelude.Dict
use fish_async_task.Resources.{
  TaskResource, TaskResourceManager, insert_by_use, sort_by_use, clean, clean_everywhere, clean_all,
  evict_oldest_resources, register_resource, unregister_found, unregister_resource, clean_found,
  clean_ids, cleanup_found, cleanup_task_resources, expired_resources, perform_cleanup,
}

module _ {A : Type 0} where
  -- Each resource is tracked once, and there are at most `limit` of them.
  pub record Bounded (limit : ℕ) (m : TaskResourceManager A) : Type 0 where
    pub same_limit : m.max_tracked ≡ limit
    pub unique : Dict.HasUniqueKeys m.resources
    pub bounded : length m.resources ≤ limit

  has-insert_by_use :
      (j k : String) (r : TaskResource A) (d : Dict (TaskResource A))
      → Dict.has j (insert_by_use (k, r) d) ≡ ((k == j) || Dict.has j d)
  unfolding insert_by_use Dict.has
  has-insert_by_use j k r [] = refl
  has-insert_by_use j k r ((i, q) ∷ d) = ground (arith, has-insert_by_use j k r d)

  pub has-sort_by_use :
      (j : String) (d : Dict (TaskResource A)) → Dict.has j (sort_by_use d) ≡ Dict.has j d
  unfolding sort_by_use Dict.has
  has-sort_by_use j [] = refl
  has-sort_by_use j ((k, r) ∷ d) =
      ground (arith, has-insert_by_use j k r (sort_by_use d), has-sort_by_use j d)

  -- Deletion leaves no more items than there were.
  length-delete_le :
      (k : String) (d : Dict (TaskResource A))
      → Dict.HasUniqueKeys d
      → length (Dict.delete k d) ≤ length d
  length-delete_le k d u = ground (arith, Dict.length-delete k d u)

  clean-Bounded :
      (limit : ℕ) (k : String) (r : TaskResource A) (m : TaskResourceManager A)
      → Bounded limit m
      → Bounded limit (clean k r m)
  unfolding clean
  clean-Bounded limit k r m b = record {
    same_limit = b.same_limit;
    unique = Dict.delete-HasUniqueKeys k m.resources b.unique;
    bounded = omega (arith, length-delete_le k m.resources b.unique, b.bounded);
  }

  clean_everywhere-Bounded :
      (limit : ℕ) (k : String) (r : TaskResource A) (m : TaskResourceManager A)
      → Bounded limit m
      → Bounded limit (clean_everywhere k r m)
  unfolding clean_everywhere
  clean_everywhere-Bounded limit k r m b =
      let c = clean-Bounded limit k r m b in
      record { same_limit = c.same_limit; unique = c.unique; bounded = c.bounded }

  -- The loops take resources out alone.
  record Fewer (m m' : TaskResourceManager A) : Type 0 where
    same_limit : m'.max_tracked ≡ m.max_tracked
    unique : Dict.HasUniqueKeys m'.resources
    fewer : length m'.resources ≤ length m.resources

  clean_all-Fewer :
      (d : Dict (TaskResource A)) (m : TaskResourceManager A)
      → Dict.HasUniqueKeys m.resources
      → Fewer m (clean_all d m)
  unfolding clean_all clean_everywhere clean
  clean_all-Fewer [] m u = record { same_limit = refl; unique = u; fewer = omega arith }
  clean_all-Fewer ((k, r) ∷ d) m u =
      let f =
        clean_all-Fewer d (clean_everywhere k r m) (Dict.delete-HasUniqueKeys k m.resources u) in
      record {
        same_limit = f.same_limit;
        unique = f.unique;
        fewer = omega (arith, f.fewer, length-delete_le k m.resources u);
      }

  -- Where the first of them is tracked, one less remains.
  clean_all_less :
      (k : String) (r : TaskResource A) (d : Dict (TaskResource A)) (m : TaskResourceManager A)
      → Dict.HasUniqueKeys m.resources
      → Dict.has k m.resources ≡ true
      → length (clean_all ((k, r) ∷ d) m).resources < length m.resources
  unfolding clean_all clean_everywhere clean
  clean_all_less k r d m u there =
      let f =
        clean_all-Fewer d (clean_everywhere k r m) (Dict.delete-HasUniqueKeys k m.resources u) in
      ground (arith, f.fewer, Dict.length-delete k m.resources u)

  evict-limit :
      (n : ℕ) (m : TaskResourceManager A) → (evict_oldest_resources n m).max_tracked ≡ m.max_tracked
  unfolding evict_oldest_resources clean_all clean_everywhere clean
  evict-limit n m = go (take n (sort_by_use m.resources)) m
    where
      go :
          (d : Dict (TaskResource A)) (m : TaskResourceManager A)
          → (clean_all d m).max_tracked ≡ m.max_tracked
      go [] m = refl
      go ((k, r) ∷ d) m = go d (clean_everywhere k r m)

  evict_keeps_unique :
      (n : ℕ) (m : TaskResourceManager A)
      → Dict.HasUniqueKeys m.resources
      → Dict.HasUniqueKeys (evict_oldest_resources n m).resources
  unfolding evict_oldest_resources
  evict_keeps_unique n m u = (clean_all-Fewer (take n (sort_by_use m.resources)) m u).unique

  first_key : (d : Dict (TaskResource A)) → 0 < length d → (k : String) × (Dict.has k d ≡ true)
  unfolding Dict.has
  first_key [] h = absurd (omega (arith, h))
  first_key ((k, r) ∷ d) h = (k, ground (arith, eq_refl k))

  -- An eviction makes room.
  evict_less :
      (n : ℕ) (m : TaskResourceManager A)
      → Dict.HasUniqueKeys m.resources
      → 0 < length m.resources
      → length (evict_oldest_resources (suc n) m).resources < length m.resources
  unfolding evict_oldest_resources Dict.has
  evict_less n m u some_there =
      let k = first_key m.resources some_there in
      evicted k.0 (sort_by_use m.resources) (has-sort_by_use k.0 m.resources ∙ k.1)
        (λ j. has-sort_by_use j m.resources)
    where
      evicted :
          (k : String) (d : Dict (TaskResource A))
          → Dict.has k d ≡ true
          → ((j : String) → Dict.has j d ≡ Dict.has j m.resources)
          → length (clean_all (take (suc n) d) m).resources < length m.resources
      evicted k [] h same = absurd (ground arith)
      evicted k ((j, r) ∷ d) h same =
          clean_all_less j r (take n d) m u (sym (same j) ∙ ground (arith, eq_refl j))

  clean_all-Bounded :
      (limit : ℕ) (d : Dict (TaskResource A)) (m : TaskResourceManager A)
      → Bounded limit m
      → Bounded limit (clean_all d m)
  clean_all-Bounded limit d m b =
      let f = clean_all-Fewer d m b.unique in
      record {
        same_limit = f.same_limit ∙ b.same_limit;
        unique = f.unique;
        bounded = omega (arith, f.fewer, b.bounded);
      }

  clean_ids-Bounded :
      (limit : ℕ) (ks : List String) (n : ℕ) (m : TaskResourceManager A)
      → Bounded limit m
      → Bounded limit (clean_ids ks (n, m)).1
  unfolding clean_ids
  clean_ids-Bounded limit [] n m b = b
  clean_ids-Bounded limit (k ∷ ks) n m b =
      elim (Dict.lookup k m.resources)
        as (λ o. Bounded limit (clean_ids ks (clean_found k (n, m) o)).1) [
          | none ↦ clean_ids-Bounded limit ks n m b
          | some r ↦ clean_ids-Bounded limit ks (suc n) (clean k r m) (clean-Bounded limit k r m b)
        ]

  cleanup_found-Bounded :
      (limit : ℕ) (k : String) (m : TaskResourceManager A) (o : Option (List String))
      → Bounded limit m
      → Bounded limit (cleanup_found k m o).1
  cleanup_found-Bounded limit k m none b = b
  cleanup_found-Bounded limit k m (some ids) b =
      let c = clean_ids-Bounded limit ids 0 m b in
      record { same_limit = c.same_limit; unique = c.unique; bounded = c.bounded }

  unregister_found-Bounded :
      (limit : ℕ) (k : String) (m : TaskResourceManager A) (o : Option (TaskResource A))
      → Bounded limit m
      → Bounded limit (unregister_found k m o).1
  unregister_found-Bounded limit k m none b = b
  unregister_found-Bounded limit k m (some r) b = clean_everywhere-Bounded limit k r m b

  register-Bounded :
      (limit now : ℕ) (task_id resource_id : String) (a : A) (m : TaskResourceManager A)
      → 0 < limit
      → Bounded limit m
      → Bounded limit (register_resource now task_id resource_id a m)
  unfolding register_resource
  register-Bounded limit now task_id resource_id a m positive b =
      let r : TaskResource A = record { resource = a; created_at = now; last_used = now } in
      elim (Bool-cases (leb m.max_tracked (length m.resources))) [
        | inl full ↦
            let less = evict_less 99 m b.unique (ground (arith, b.same_limit)) in
            let m' = evict_oldest_resources 100 m in
            rw full (record {
              same_limit = evict-limit 100 m ∙ b.same_limit;
              unique =
                  Dict.insert-HasUniqueKeys resource_id r m'.resources
                    (evict_keeps_unique 100 m b.unique);
              bounded = ground (arith, Dict.length-insert resource_id r m'.resources, b.bounded);
            })
        | inr room ↦ rw room (record {
          same_limit = b.same_limit;
          unique = Dict.insert-HasUniqueKeys resource_id r m.resources b.unique;
          bounded = ground (arith, Dict.length-insert resource_id r m.resources, b.same_limit);
        })
      ]

  -- While each resource is tracked once and there are at most `max_tracked` of them, a positive
  -- number, this remains so after `register_resource`, whether or not it evicts, and after
  -- `cleanup_task_resources`, `unregister_resource` and `_perform_cleanup`.
  pub step-Bounded :
      (limit now : ℕ) (task_id resource_id : String) (a : A) (m : TaskResourceManager A)
      → 0 < limit
      → Bounded limit m
      → Bounded limit (register_resource now task_id resource_id a m)
        × Bounded limit (cleanup_task_resources task_id m).1
        × Bounded limit (unregister_resource resource_id m).1
        × Bounded limit (perform_cleanup now m).1
  unfolding cleanup_task_resources unregister_resource perform_cleanup
  step-Bounded limit now task_id resource_id a m positive b = (
    register-Bounded limit now task_id resource_id a m positive b,
    cleanup_found-Bounded limit task_id m (Dict.lookup task_id m.task_resources) b,
    unregister_found-Bounded limit resource_id m (Dict.lookup resource_id m.resources) b,
    clean_all-Bounded limit (take 100 (expired_resources now m.resources)) m b,
  )
