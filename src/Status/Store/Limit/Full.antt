-- ===== src/Status/Store/Limit/Full.antt =====
-- The full form: which tasks stay.
use fish_async_task.Prelude.{
  ℕ, zero, suc, ◌+◌, ◌-◌, ◌<◌, ◌≡◌, refl, ◌∙◌, String, ◌==◌, Bool, true, false, ◌&&◌, Option, none,
  some, List, [], ◌∷◌, Perm, arith, if◌then◌else◌, length, length-append, length-perm, length-drop,
  get_elem?, take, drop, any, leb, eqb,
}
use fish_async_task.Prelude.Dict
use fish_async_task.Prelude.Dict.{Dict}
use fish_async_task.Prelude.Heapq.{
  WeakOrder, all_before, ordered_split, sort, sort-perm, sort-IsOrdered,
}
use fish_async_task.Status.{TaskStatusDict}
use fish_async_task.Status.Store.{
  Store, Runtime, or_empty, sizes, shard_index, get_status, get_total_count,
}
use fish_async_task.Status.Store.Limit.{
  Aged, key_lt, is_newer, entries, all_entries, collect_all_tasks, pop_at, pop_tasks,
  enforce_max_count_full,
}

key_lt-asymm : (a b : Option ℕ) → key_lt a b ≡ true → key_lt b a ≡ false
key_lt-asymm none none h = refl
key_lt-asymm none (some b) h = refl
key_lt-asymm (some a) none h = ground arith
key_lt-asymm (some a) (some b) h = ground arith

not-key_lt_trans : (a b c : Option ℕ) → key_lt a b ≡ false → key_lt b c ≡ false → key_lt a c ≡ false
not-key_lt_trans none none c h k = k
not-key_lt_trans none (some b) c h k = ground arith
not-key_lt_trans (some a) b none h k = refl
not-key_lt_trans (some a) none (some c) h k = ground arith
not-key_lt_trans (some a) (some b) (some c) h k = ground arith

newer_order : WeakOrder is_newer
newer_order = record {
  asymm = λ a b h. key_lt-asymm b.sort_key a.sort_key h;
  trans = λ a b c h k. not-key_lt_trans a.sort_key b.sort_key c.sort_key h k;
}

-- The task `k` of the shard `i`.
abbrev pub is_entry : String → ℕ → Aged → Bool
is_entry k i a = eqb a.shard_idx i && (a.task_id == k)

module _ {R : Type 0} where
  lookup-pop_at :
      (i j : ℕ) (k l : String) (ds : List (Dict (TaskStatusDict R)))
      → Dict.lookup l (or_empty (get_elem? (pop_at i k ds) j))
        ≡ (if eqb i j && (k == l) then none else Dict.lookup l (or_empty (get_elem? ds j)))
  unfolding Dict.lookup
  lookup-pop_at i j k l [] = ground arith
  lookup-pop_at zero zero k l (d ∷ ds) = ground (arith, Dict.lookup-delete k l d)
  lookup-pop_at zero (suc j) k l (d ∷ ds) = ground arith
  lookup-pop_at (suc i) zero k l (d ∷ ds) = ground arith
  lookup-pop_at (suc i) (suc j) k l (d ∷ ds) = lookup-pop_at i j k l ds ∙ ground arith

  lookup-pop_tasks :
      (ts : List Aged) (n j : ℕ) (l : String) (ds : List (Dict (TaskStatusDict R)))
      → Dict.lookup l (or_empty (get_elem? (pop_tasks ts (n, ds)).1 j))
        ≡ (if any (is_entry l j) ts then none else Dict.lookup l (or_empty (get_elem? ds j)))
  unfolding pop_tasks
  lookup-pop_tasks [] n j l ds = refl
  lookup-pop_tasks (a ∷ ts) n j l ds =
      lookup-pop_tasks ts (suc n) j l (pop_at a.shard_idx a.task_id ds)
      ∙ ground (arith, lookup-pop_at a.shard_idx j a.task_id l ds)

  pub count-pop_tasks :
      (ts : List Aged) (n : ℕ) (ds : List (Dict (TaskStatusDict R)))
      → (pop_tasks ts (n, ds)).0 ≡ n + length ts
  unfolding pop_tasks
  count-pop_tasks [] n ds = omega arith
  count-pop_tasks (a ∷ ts) n ds =
      omega (arith, count-pop_tasks ts (suc n) (pop_at a.shard_idx a.task_id ds))

  length-entries : (i : ℕ) (d : Dict (TaskStatusDict R)) → length (entries i d) ≡ length d
  unfolding entries
  length-entries i [] = refl
  length-entries i ((k, st) ∷ d) = omega (arith, length-entries i d)

  length-all_entries :
      (i : ℕ) (ds : List (Dict (TaskStatusDict R))) → length (all_entries i ds) ≡ sizes ds
  unfolding all_entries
  length-all_entries i [] = refl
  length-all_entries i (d ∷ ds) = omega (
    arith,
    length-append {0} (entries i d) (all_entries (suc i) ds),
    length-entries i d,
    length-all_entries (suc i) ds,
  )

module _ {R : Type 0} (py : Runtime) where
  -- What a store looks like after all but the newest `max_count` tasks were removed: `whole` are
  -- its tasks with their times, each as often as it is stored.
  pub record OnlyNewest (max_count : ℕ) (s : Store R) (r : ℕ × Store R) : Type 0 where
    pub whole : List Aged
    pub stored : Perm whole (all_entries 0 s.shards)
    pub newest : all_before is_newer (take max_count whole) (drop max_count whole) ≡ true
    pub removed : r.0 ≡ get_total_count s - max_count
    pub reads :
        (k : String)
        → get_status py r.1 k ≡ (
            if any (is_entry k (shard_index py.hash s.shard_count k)) (drop max_count whole)
            then none
            else get_status py s k)

  -- When a store holds more than `max_count` tasks, `_enforce_max_count_full` removes exactly those
  -- that are not among the `max_count` newest, by submit time or else start time, none of which is
  -- newer than one that stays, whatever their states; and it returns by how many there were too
  -- many.
  pub enforce_max_count_full-OnlyNewest :
      (max_count : ℕ) (s : Store R)
      → max_count < get_total_count s
      → OnlyNewest max_count s (enforce_max_count_full py max_count s)
  unfolding enforce_max_count_full collect_all_tasks get_total_count get_status
  enforce_max_count_full-OnlyNewest max_count s over =
      let l = all_entries 0 s.shards in
      let whole = sort is_newer l in
      let too_many : leb (sizes s.shards) max_count ≡ false = ground arith in
      rw too_many (record {
        whole = whole;
        stored = sort-perm is_newer l;
        newest = ordered_split is_newer max_count whole (sort-IsOrdered is_newer newer_order l);
        removed = omega (
          arith,
          count-pop_tasks (drop max_count whole) 0 s.shards,
          length-drop {0} max_count whole,
          length-perm {0} whole l (sort-perm is_newer l),
          length-all_entries 0 s.shards,
        );
        reads = λ k.
            lookup-pop_tasks (drop max_count whole) 0 (shard_index py.hash s.shard_count k) k
              s.shards;
      })
