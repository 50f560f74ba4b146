-- ===== src/Status/Store/Limit/Removed.antt =====
-- How many tasks the full form removes, and the clean-up as a whole.
use fish_async_task.Prelude.{
  ℕ, zero, suc, ◌+◌, ◌-◌, ◌*◌, ◌≤◌, ◌<◌, ◌≡◌, refl, ◌∙◌, sym, ap, String, ◌==◌, eq_iff, eq_refl,
  Bool, true, false, not, ◌&&◌, some, List, [], ◌∷◌, arith, if◌then◌else◌, length, get_elem?, drop,
  any, all, all-drop, all-append, count-drop, count-append, uncounted, all-perm, count, count-perm,
  leb, ltb, eqb, All,
}
use fish_async_task.Prelude.Dict
use fish_async_task.Prelude.Dict.{Dict}
use fish_async_task.Prelude.Heapq.{sort, sort-perm}
use fish_async_task.Status.{TaskStatusDict}
use fish_async_task.Status.Store.{Store, Runtime, or_empty, sizes, get_total_count}
use fish_async_task.Status.Store.Cleanup.{cleanup_expired, sweep_all}
use fish_async_task.Status.Store.Cleanup.Counting.{sweep_all-Counts}
use fish_async_task.Status.Store.Limit.{
  Aged, is_newer, entries, all_entries, collect_all_tasks, pop_at, pop_tasks,
  enforce_max_count_full, enforce_max_count_incremental, enforce_max_count, cleanup_old_task_status,
}
use fish_async_task.Status.Store.Limit.Full.{count-pop_tasks}
use fish_async_task.Status.Store.Limit.Incremental.{enforce_max_count_incremental-count}

-- The tuple of the same task of the same shard.
abbrev same : Aged → Aged → Bool
same a b = eqb a.shard_idx b.shard_idx && (a.task_id == b.task_id)

module _ {R : Type 0} where
  -- Whether the task of a tuple is in its shard.
  abbrev stored : List (Dict (TaskStatusDict R)) → Aged → Bool
  stored ds a = Dict.has a.task_id (or_empty (get_elem? ds a.shard_idx))

  sizes-pop_at :
      (i : ℕ) (k : String) (ds : List (Dict (TaskStatusDict R)))
      → All Dict.HasUniqueKeys ds
      → Dict.has k (or_empty (get_elem? ds i)) ≡ true
      → suc (sizes (pop_at i k ds)) ≡ sizes ds
  unfolding Dict.has
  sizes-pop_at i k [] u h = absurd (ground arith)
  sizes-pop_at zero k (d ∷ ds) u h = ground (arith, Dict.length-delete k d u.0)
  sizes-pop_at (suc i) k (d ∷ ds) u h = ground (arith, sizes-pop_at i k ds u.1 h)

  pop_at_unique :
      (i : ℕ) (k : String) (ds : List (Dict (TaskStatusDict R)))
      → All Dict.HasUniqueKeys ds
      → All Dict.HasUniqueKeys (pop_at i k ds)
  pop_at_unique i k [] u = u
  pop_at_unique zero k (d ∷ ds) u = (Dict.delete-HasUniqueKeys k d u.0, u.1)
  pop_at_unique (suc i) k (d ∷ ds) u = (u.0, pop_at_unique i k ds u.1)

  has-pop_at :
      (i j : ℕ) (k l : String) (ds : List (Dict (TaskStatusDict R)))
      → Dict.has l (or_empty (get_elem? (pop_at i k ds) j))
        ≡ (not (eqb i j && (k == l)) && Dict.has l (or_empty (get_elem? ds j)))
  unfolding Dict.has
  has-pop_at i j k l [] = ground arith
  has-pop_at zero zero k l (d ∷ ds) = ground (arith, Dict.has-delete k l d)
  has-pop_at zero (suc j) k l (d ∷ ds) = ground arith
  has-pop_at (suc i) zero k l (d ∷ ds) = ground arith
  has-pop_at (suc i) (suc j) k l (d ∷ ds) = has-pop_at i j k l ds ∙ ground arith

  still_stored :
      (a : Aged) (ts : List Aged) (ds : List (Dict (TaskStatusDict R)))
      → any (same a) ts ≡ false
      → all (stored ds) ts ≡ true
      → all (stored (pop_at a.shard_idx a.task_id ds)) ts ≡ true
  still_stored a [] ds n h = refl
  still_stored a (b ∷ ts) ds n h =
      ground
        (arith, still_stored a ts ds, has-pop_at a.shard_idx b.shard_idx a.task_id b.task_id ds)

  sizes-pop_tasks :
      (ts : List Aged) (n : ℕ) (ds : List (Dict (TaskStatusDict R)))
      → ((a : Aged) → count (same a) ts ≤ 1)
      → all (stored ds) ts ≡ true
      → All Dict.HasUniqueKeys ds
      → length ts + sizes (pop_tasks ts (n, ds)).1 ≡ sizes ds
  unfolding pop_tasks
  sizes-pop_tasks [] n ds c h u = omega arith
  sizes-pop_tasks (a ∷ ts) n ds c h u =
      let other : any (same a) ts ≡ false =
        uncounted (same a) ts (ground (arith, c a, eq_refl a.task_id)) in
      let rest =
        sizes-pop_tasks ts (suc n) (pop_at a.shard_idx a.task_id ds) (λ b. ground (arith, c b))
          (still_stored a ts ds other (ground arith)) (pop_at_unique a.shard_idx a.task_id ds u) in
      omega (arith, rest, sizes-pop_at a.shard_idx a.task_id ds u (ground arith))

  count-entries :
      (a : Aged) (i : ℕ) (d : Dict (TaskStatusDict R))
      → Dict.HasUniqueKeys d
      → count (same a) (entries i d) ≡ (if eqb a.shard_idx i && Dict.has a.task_id d then 1 else 0)
  unfolding entries Dict.has
  count-entries a i [] u = ground arith
  count-entries a i ((k, st) ∷ d) u = ground (
    arith,
    count-entries a i d u.1,
    eq_iff a.task_id k,
    eq_iff k a.task_id,
    Dict.has_ext k a.task_id d,
  )

  count-all_entries :
      (a : Aged) (i : ℕ) (ds : List (Dict (TaskStatusDict R)))
      → All Dict.HasUniqueKeys ds
      → count (same a) (all_entries i ds) ≤ (if ltb a.shard_idx i then 0 else 1)
  unfolding all_entries
  count-all_entries a i [] u = omega arith
  count-all_entries a i (d ∷ ds) u = ground (
    arith,
    count-append (same a) (entries i d) (all_entries (suc i) ds),
    count-entries a i d u.0,
    count-all_entries a (suc i) ds u.1,
  )

  -- Stored, where the first shard has the number `i`.
  abbrev stored_from : ℕ → List (Dict (TaskStatusDict R)) → Aged → Bool
  stored_from i ds a =
      leb i a.shard_idx && Dict.has a.task_id (or_empty (get_elem? ds (a.shard_idx - i)))

  later_shard :
      (i : ℕ) (d : Dict (TaskStatusDict R)) (ds : List (Dict (TaskStatusDict R))) (l : List Aged)
      → all (stored_from (suc i) ds) l ≡ true
      → all (stored_from i (d ∷ ds)) l ≡ true
  later_shard i d ds [] h = refl
  later_shard i d ds (a ∷ l) h =
      let rest = later_shard i d ds l (ground arith) in
      let here : stored_from (suc i) ds a ≡ true = ground arith in
      let next : a.shard_idx - i ≡ suc (a.shard_idx - suc i) = ground arith in
      rw next (ground (arith, rest, here))

  own_entries :
      (i : ℕ) (d e : Dict (TaskStatusDict R)) (ds : List (Dict (TaskStatusDict R)))
      → ((k : String) → Dict.has k e ≡ true → Dict.has k d ≡ true)
      → all (stored_from i (d ∷ ds)) (entries i e) ≡ true
  unfolding entries Dict.has
  own_entries i d [] ds h = refl
  own_entries i d ((k, st) ∷ e) ds h =
      let nothing : i - i ≡ 0 = omega arith in
      rw nothing
        (ground (arith, h k, eq_refl k, own_entries i d e ds (λ j there. h j (ground arith))))

  entries-stored :
      (i : ℕ) (ds : List (Dict (TaskStatusDict R)))
      → all (stored_from i ds) (all_entries i ds) ≡ true
  unfolding all_entries
  entries-stored i [] = refl
  entries-stored i (d ∷ ds) = ground (
    arith,
    all-append (stored_from i (d ∷ ds)) (entries i d) (all_entries (suc i) ds),
    own_entries i d d ds (λ k h. h),
    later_shard i d ds (all_entries (suc i) ds) (entries-stored (suc i) ds),
  )

  stored_from-stored :
      (ds : List (Dict (TaskStatusDict R))) (l : List Aged)
      → all (stored_from 0 ds) l ≡ true
      → all (stored ds) l ≡ true
  stored_from-stored ds [] h = refl
  stored_from-stored ds (a ∷ l) h =
      let whole : a.shard_idx - 0 ≡ a.shard_idx = omega arith in
      ground (
        arith,
        stored_from-stored ds l,
        ap (λ i. Dict.has a.task_id (or_empty (get_elem? ds i))) whole,
      )

-- A number of tasks was removed, and is the one that is returned.
abbrev pub Removes : {R : Type 0} → Store R → ℕ × Store R → Type 0
Removes s r = r.0 + get_total_count r.1 ≡ get_total_count s

if-Removes :
    {R : Type 0} (s : Store R) (b : Bool) (x y : ℕ × Store R)
    → (b ≡ true → Removes s x)
    → (b ≡ false → Removes s y)
    → Removes s (if b then x else y)
if-Removes s true x y h k = h refl
if-Removes s false x y h k = k refl

module _ {R : Type 0} (py : Runtime) where
  enforce_max_count_full-Removes :
      (max_count : ℕ) (s : Store R)
      → All Dict.HasUniqueKeys s.shards
      → max_count < get_total_count s
      → Removes s (enforce_max_count_full py max_count s)
  unfolding enforce_max_count_full collect_all_tasks get_total_count
  enforce_max_count_full-Removes max_count s u over =
      let l = all_entries 0 s.shards in
      let whole = sort is_newer l in
      let perm = sort-perm is_newer l in
      let too_many : leb (sizes s.shards) max_count ≡ false = ground arith in
      let removed = drop max_count whole in
      rw too_many (
        omega (
          arith,
          count-pop_tasks removed 0 s.shards,
          sizes-pop_tasks removed 0 s.shards
              (λ a. ground (
                arith,
                count-drop (same a) max_count whole,
                count-perm (same a) whole l perm,
                count-all_entries a 0 s.shards u,
              ))
              (all-drop (stored s.shards) max_count whole (
                all-perm (stored s.shards) whole l perm
                ∙ stored_from-stored s.shards l (entries-stored 0 s.shards)))
              u,
        ))

  enforce_max_count-Removes :
      (max_count : ℕ) (s : Store R)
      → All Dict.HasUniqueKeys s.shards
      → length s.shards ≡ length s.expiry_heaps
      → Removes s (enforce_max_count py max_count s)
  unfolding enforce_max_count enforce_max_count_full enforce_max_count_incremental
  enforce_max_count-Removes max_count s u e =
      if-Removes s (leb (get_total_count s) max_count) _ _ (λ within. omega arith)
        (λ over.
          if-Removes s (ltb (3 * max_count) (2 * get_total_count s)) _ _
            (λ far. enforce_max_count_full-Removes max_count s u (ground arith))
            (λ near. (enforce_max_count_incremental-count py max_count s u e).1))

  -- Where the keys of each shard are distinct and each shard has a heap, `cleanup_old_task_status`
  -- returns the number of tasks by which the store has become smaller, those that had expired and
  -- those that were too many, whichever form of the limit is taken.
  pub cleanup_old_task_status-Removes :
      (now max_task_status_count : ℕ) (s : Store R)
      → All Dict.HasUniqueKeys s.shards
      → length s.shards ≡ length s.expiry_heaps
      → Removes s (cleanup_old_task_status py now max_task_status_count s)
  unfolding cleanup_old_task_status cleanup_expired get_total_count
  cleanup_old_task_status-Removes now max_task_status_count s u e =
      let swept = sweep_all py now s.ttl 0 (some 100) s.shards s.expiry_heaps in
      let c = sweep_all-Counts py now s.ttl 0 (some 100) s.shards s.expiry_heaps u in
      let s' : Store R = record s { shards = swept.shards; expiry_heaps = swept.heaps } in
      omega (
        arith,
        c.balance,
        enforce_max_count-Removes max_task_status_count s' c.unique
            (c.shard_number ∙ e ∙ sym c.heap_number),
      )
