-- ===== src/Status/Store/Limit/Incremental.antt =====
-- The incremental form: how many tasks it removes from a shard, and from all of them.
use fish_async_task.Prelude.{
  All, ℕ, suc, ◌+◌, ◌-◌, ◌≤◌, ◌<◌, ◌≡◌, refl, ◌∙◌, sym, ap, subst, String, eq_iff, eq_refl, Bool,
  true, not, List, [], ◌∷◌, Perm, arith, if◌then◌else◌, length, length-perm, take, select, count,
  count-perm, map-perm, map-take, leb,
}
use Prim.Native.Nat.{min}
use fish_async_task.Prelude.Dict
use fish_async_task.Prelude.Dict.{Dict}
use fish_async_task.Prelude.Heapq.{sort, sort-perm}
use fish_async_task.Prelude.StringSet.{contains, contains_ext}
use fish_async_task.Status.{TaskStatusDict}
use fish_async_task.Status.Store.{Store, Runtime, Expiry, sizes, get_total_count}
use fish_async_task.Status.Store.Limit.{
  is_newer, ids_of, entries, collect_shard_tasks, delete_each, keys_to_remove, kept_ids,
  limit_shard, limit_all, enforce_max_count_incremental,
}
use fish_async_task.Status.Store.Limit.Counts.{
  Distinct, count-not_taken, Distinct-perm, keys-Distinct, count-select, select-Distinct,
  length-keys, contained-keys,
}

module _ {R : Type 0} where
  ids-entries : (i : ℕ) (d : Dict (TaskStatusDict R)) → ids_of (entries i d) ≡ Dict.keys d
  unfolding entries
  ids-entries i [] = refl
  ids-entries i ((k, st) ∷ d) = ap (λ ks. k ∷ ks) (ids-entries i d)

  -- All keys of a list are in the dict.
  abbrev Within : List String → Dict (TaskStatusDict R) → Type 0
  Within ks d = (k : String) → contains k ks ≡ true → Dict.has k d ≡ true

  -- Deleting distinct keys that are all there takes as many items away.
  length-delete_each :
      (ks : List String) (d : Dict (TaskStatusDict R))
      → Distinct ks
      → Within ks d
      → Dict.HasUniqueKeys d
      → length ks + length (delete_each ks d) ≡ length d
  unfolding delete_each contains
  length-delete_each [] d n w u = omega arith
  length-delete_each (k ∷ ks) d n w u = omega (
    arith,
    ap (λ b. length (Dict.delete k d) + (if b then 1 else 0)) (w k (ground (arith, eq_refl k))),
    Dict.length-delete k d u,
    length-delete_each ks (Dict.delete k d) n.1
        (λ j h. ground (arith, n.0, contains_ext j k ks, w j, eq_iff k j, Dict.has-delete k j d))
        (Dict.delete-HasUniqueKeys k d u),
  )

contained-select :
    (p : String → Bool) (k : String) (l : List String)
    → contains k (select p l) ≡ true
    → contains k l ≡ true
unfolding contains
contained-select p k [] h = h
contained-select p k (x ∷ l) h = ground (arith, contained-select p k l)

module _ {R : Type 0} where
  ids_of_sorted-perm :
      (i : ℕ) (d : Dict (TaskStatusDict R)) → Perm (ids_of (collect_shard_tasks i d)) (Dict.keys d)
  unfolding collect_shard_tasks
  ids_of_sorted-perm i d =
      subst (Perm (ids_of (sort is_newer (entries i d)))) (ids-entries i d)
        (map-perm (λ a. a.task_id) _ _ (sort-perm is_newer (entries i d)))

  -- As many tasks as are wanted are removed from a shard, but one is left.
  length-keys_to_remove :
      (wanted i : ℕ) (d : Dict (TaskStatusDict R))
      → Dict.HasUniqueKeys d
      → 1 < length d
      → length (keys_to_remove (kept_ids wanted i d) d) ≡ min wanted (length d - 1)
  unfolding keys_to_remove kept_ids
  length-keys_to_remove wanted i d u h =
      let m : ℕ = (if leb (length d - wanted) 1 then 1 else length d - wanted) in
      let sorted = collect_shard_tasks i d in
      let unkept : List String → String → Bool = (λ keep k. not (contains k keep)) in
      let perm = ids_of_sorted-perm i d in
      let taken =
        count-not_taken m (ids_of sorted)
          (Distinct-perm (ids_of sorted) (Dict.keys d) perm (keys-Distinct d u)) in
      ground (
        arith,
        count-select (unkept (ids_of (take m sorted))) (Dict.keys d),
        ap (λ keep. count (unkept keep) (Dict.keys d)) (map-take (λ a. a.task_id) m sorted),
        count-perm (unkept (take m (ids_of sorted))) (ids_of sorted) (Dict.keys d) perm,
        taken,
        length-perm (ids_of sorted) (Dict.keys d) perm,
        length-keys d,
      )

  Within-keys_to_remove :
      (keep : List String) (d : Dict (TaskStatusDict R)) → Within (keys_to_remove keep d) d
  unfolding keys_to_remove
  Within-keys_to_remove keep d k h =
      sym (contained-keys k d) ∙ contained-select (λ j. not (contains j keep)) k (Dict.keys d) h

  removed-Distinct :
      (keep : List String) (d : Dict (TaskStatusDict R))
      → Dict.HasUniqueKeys d
      → Distinct (keys_to_remove keep d)
  unfolding keys_to_remove
  removed-Distinct keep d u =
      select-Distinct (λ k. not (contains k keep)) (Dict.keys d) (keys-Distinct d u)

-- The tasks that the shards can spare: all but one of each.
abbrev pub spare : {R : Type 0} → List (Dict (TaskStatusDict R)) → ℕ
spare [] = 0
spare (d ∷ ds) = (length d - 1) + spare ds

module _ {R : Type 0} (py : Runtime) where
  limit_shard-count :
      (excess cleaned i : ℕ) (d : Dict (TaskStatusDict R)) (heap : List Expiry)
      → Dict.HasUniqueKeys d
      → (limit_shard py excess cleaned i d heap).0 ≡ cleaned + min (excess - cleaned) (length d - 1)
  unfolding limit_shard
  limit_shard-count excess cleaned i d heap u =
      ground (arith, length-keys_to_remove (excess - cleaned) i d u)

  limit_shard-length :
      (excess cleaned i : ℕ) (d : Dict (TaskStatusDict R)) (heap : List Expiry)
      → Dict.HasUniqueKeys d
      → (let r = limit_shard py excess cleaned i d heap in r.0 + length r.1.0) ≡ cleaned + length d
  unfolding limit_shard
  limit_shard-length excess cleaned i d heap u =
      let keep = kept_ids (excess - cleaned) i d in
      ground (
        arith,
        length-delete_each (keys_to_remove keep d) d (removed-Distinct keep d u)
            (Within-keys_to_remove keep d) u,
      )

  limit_all-Counted :
      (excess cleaned i : ℕ) (ds : List (Dict (TaskStatusDict R))) (heaps : List (List Expiry))
      → All Dict.HasUniqueKeys ds
      → length ds ≡ length heaps
      → cleaned ≤ excess
      → (let r = limit_all py excess cleaned i ds heaps in
          (r.count ≡ cleaned + min (excess - cleaned) (spare ds))
          × (r.count + sizes r.shards ≡ cleaned + sizes ds))
  unfolding limit_all
  limit_all-Counted excess cleaned i [] heaps u e c = (omega arith, refl)
  limit_all-Counted excess cleaned i (d ∷ ds) [] u e c = absurd (omega arith)
  limit_all-Counted excess cleaned i (d ∷ ds) (h ∷ hs) u e c =
      let count : ℕ = (limit_shard py excess cleaned i d h).0 in
      let counted = limit_shard-count excess cleaned i d h u.0 in
      ground (
        arith,
        counted,
        limit_shard-length excess cleaned i d h u.0,
        limit_all-Counted excess count (suc i) ds hs u.1 (omega arith) (omega (arith, counted)),
      )

  -- In its incremental form the limit removes as many tasks as the store holds too many, but at
  -- most all but one of each shard; it returns how many it removed, and they are gone. The keys of
  -- each shard are distinct, and there is a heap for each.
  pub enforce_max_count_incremental-count :
      (max_count : ℕ) (s : Store R)
      → All Dict.HasUniqueKeys s.shards
      → length s.shards ≡ length s.expiry_heaps
      → (let (n, s') = enforce_max_count_incremental py max_count s in
          (n ≡ min (get_total_count s - max_count) (spare s.shards))
          × (n + get_total_count s' ≡ get_total_count s))
  unfolding enforce_max_count_incremental get_total_count
  enforce_max_count_incremental-count max_count s u e =
      ground (arith, limit_all-Counted (sizes s.shards - max_count) 0 0 s.shards s.expiry_heaps u e)
