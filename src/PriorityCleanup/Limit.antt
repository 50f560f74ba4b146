-- ===== src/PriorityCleanup/Limit.antt =====
-- `enforce_max_count`.
use fish_async_task.Prelude.{
  ℕ, ◌+◌, ◌-◌, ◌<◌, ◌≡◌, refl, ◌∙◌, sym, ap, subst, String, eq_iff, eq_refl, true, false, not, none,
  List, [], ◌∷◌, arith, Perm, if◌then◌else◌, length, length-perm, take, drop, select, leb, map-perm,
  map-take, length-take, Bool-cases, inl, inr,
}
use fish_async_task.Prelude.Dict
use fish_async_task.Prelude.Dict.{
  Dict, lookup-delete, lookup-insert, length-delete, delete-HasUniqueKeys, insert-HasUniqueKeys,
  has-delete,
}
use fish_async_task.Prelude.StringSet.{contains, contains_ext}
use fish_async_task.Prelude.Heapq.{
  WeakOrder, all_before, ordered_split, sort, sort-perm, sort-IsOrdered,
}
use fish_async_task.Status.{TaskStatusDict}
use fish_async_task.Status.Store.{Runtime, Expiry}
use fish_async_task.Status.Store.Limit.Counts.{
  Distinct, Distinct-perm, keys-Distinct, take-Distinct, contained-take, contains-perm,
  contained-keys, length-keys,
}
use fish_async_task.PriorityCleanup.{
  TaskStatusWithExpiry, Stamped, is_older, ids_of, get_task, get_task_count, tasks_with_time,
  remove_each, to_remove_ids, enforce_max_count,
}
use fish_async_task.PriorityCleanup.Expiring.{noted}
use fish_async_task.PriorityCleanup.Invariant.{IsValid, noted-perm, noted-kept}

older_order : WeakOrder is_older
older_order = record { asymm = λ a b h. ground arith; trans = λ a b c h k. ground arith }

module _ {R : Type 0} where
  absent_anyway :
      (k j : String) (ks : List String) (d : Dict (TaskStatusDict R))
      → Dict.has k d ≡ false
      → (if contains j ks then none else Dict.lookup j d)
        ≡ (if contains j (k ∷ ks) then none else Dict.lookup j d)
  unfolding contains
  absent_anyway k j ks d gone =
      ground (arith, lookup-delete k j d, ap (λ e. Dict.lookup j e) (Dict.delete_missing k d gone))

  remove_each_here :
      (k : String) (ks : List String) (n : ℕ) (d : Dict (TaskStatusDict R))
      → Dict.has k d ≡ true
      → remove_each (k ∷ ks) (n, d) ≡ remove_each ks (n + 1, Dict.delete k d)
  unfolding remove_each
  remove_each_here k ks n d h =
      ap (λ b. remove_each ks (if b then (n + 1, Dict.delete k d) else (n, d))) h

  remove_each_gone :
      (k : String) (ks : List String) (n : ℕ) (d : Dict (TaskStatusDict R))
      → Dict.has k d ≡ false
      → remove_each (k ∷ ks) (n, d) ≡ remove_each ks (n, d)
  unfolding remove_each
  remove_each_gone k ks n d h =
      ap (λ b. remove_each ks (if b then (n + 1, Dict.delete k d) else (n, d))) h

  lookup-remove_each :
      (ks : List String) (n : ℕ) (j : String) (d : Dict (TaskStatusDict R))
      → Dict.lookup j (remove_each ks (n, d)).1 ≡ (if contains j ks then none else Dict.lookup j d)
  unfolding remove_each contains
  lookup-remove_each [] n j d = refl
  lookup-remove_each (k ∷ ks) n j d = elim (Bool-cases (Dict.has k d)) [
    | inl here ↦
        ap (λ r. Dict.lookup j r.1) (remove_each_here k ks n d here)
        ∙ lookup-remove_each ks (n + 1) j (Dict.delete k d)
        ∙ ground (arith, lookup-delete k j d)
    | inr gone ↦
        ap (λ r. Dict.lookup j r.1) (remove_each_gone k ks n d gone)
        ∙ lookup-remove_each ks n j d
        ∙ absent_anyway k j ks d gone
  ]

  record Counted (n m : ℕ) (d : Dict (TaskStatusDict R)) (r : ℕ × Dict (TaskStatusDict R))
      : Type 0 where
    number : r.0 ≡ n + m
    rest : length r.1 + m ≡ length d
    unique : Dict.HasUniqueKeys r.1

  -- Distinct keys that are all there are all removed, and counted.
  remove_each-Counted :
      (ks : List String) (n : ℕ) (d : Dict (TaskStatusDict R))
      → Distinct ks
      → ((k : String) → contains k ks ≡ true → Dict.has k d ≡ true)
      → Dict.HasUniqueKeys d
      → Counted n (length ks) d (remove_each ks (n, d))
  unfolding remove_each contains
  remove_each-Counted [] n d x w u = record { number = omega arith; rest = omega arith; unique = u }
  remove_each-Counted (k ∷ ks) n d x w u =
      let here : Dict.has k d ≡ true = w k (ground (arith, eq_refl k)) in
      let c =
        remove_each-Counted ks (n + 1) (Dict.delete k d) x.1
          (λ j h. ground (arith, x.0, contains_ext j k ks, w j, eq_iff k j, has-delete k j d))
          (delete-HasUniqueKeys k d u) in
      subst (Counted n (length (k ∷ ks)) d) (sym (remove_each_here k ks n d here)) (record {
        number = omega (arith, c.number);
        rest = ground (arith, c.rest, length-delete k d u);
        unique = c.unique;
      })

  -- The ids of the tasks with their times are the keys.
  ids-tasks_with_time : (d : Dict (TaskStatusDict R)) → ids_of (tasks_with_time d) ≡ Dict.keys d
  unfolding tasks_with_time
  ids-tasks_with_time [] = refl
  ids-tasks_with_time ((k, st) ∷ d) = ap (λ ks. k ∷ ks) (ids-tasks_with_time d)

  ids_of_sorted-perm :
      (d : Dict (TaskStatusDict R))
      → Perm (ids_of (sort is_older (tasks_with_time d))) (Dict.keys d)
  ids_of_sorted-perm d =
      subst (Perm (ids_of (sort is_older (tasks_with_time d)))) (ids-tasks_with_time d)
        (map-perm (λ a. a.task_id) _ _ (sort-perm is_older (tasks_with_time d)))

  -- What is to be removed: distinct keys of the dict, as many as there are too many.
  record Chosen (max_count : ℕ) (d : Dict (TaskStatusDict R)) (ids : List String) : Type 0 where
    distinct : Distinct ids
    within : (k : String) → contains k ids ≡ true → Dict.has k d ≡ true
    number : length ids ≡ length d - max_count

  to_remove_ids-Chosen :
      (max_count : ℕ) (d : Dict (TaskStatusDict R))
      → Dict.HasUniqueKeys d
      → Chosen max_count d (to_remove_ids max_count d)
  unfolding to_remove_ids
  to_remove_ids-Chosen max_count d u =
      let m : ℕ = length d - max_count in
      let whole = sort is_older (tasks_with_time d) in
      let perm = ids_of_sorted-perm d in
      subst (Chosen max_count d) (sym (map-take (λ a. a.task_id) m whole)) (record {
        distinct =
            take-Distinct m (ids_of whole)
              (Distinct-perm (ids_of whole) (Dict.keys d) perm (keys-Distinct d u));
        within = λ k h.
            sym (contained-keys k d)
            ∙ sym (contains-perm k (ids_of whole) (Dict.keys d) perm)
            ∙ contained-take m k (ids_of whole) h;
        number = omega (
          arith,
          length-take {0} m (ids_of whole),
          length-perm {0} (ids_of whole) (Dict.keys d) perm,
          length-keys d,
        );
      })

module _ {R : Type 0} (py : Runtime) where
  -- A store after its oldest tasks were removed: `whole` are its tasks with their times.
  pub record OldestGone (max_count : ℕ) (s : TaskStatusWithExpiry R)
      (r : ℕ × TaskStatusWithExpiry R) : Type 0 where
    pub whole : List Stamped
    pub stored : Perm whole (tasks_with_time s.status_dict)
    pub oldest :
        (let n = get_task_count s - max_count in
          all_before is_older (take n whole) (drop n whole) ≡ true)
    pub reads :
        (k : String)
        → get_task r.1 k ≡ (
            if contains k (ids_of (take (get_task_count s - max_count) whole))
            then none
            else get_task s k)
    pub removed : r.0 + max_count ≡ get_task_count s
    pub count : get_task_count r.1 ≡ max_count
    pub valid : IsValid py r.1

  -- When more than `max_count` tasks are stored, `enforce_max_count` removes as many as there are
  -- too many, none of which is newer, by submit time or else start time or else end time, than one
  -- that stays, returns how many it removed, leaves `max_count`, and keeps the heap in order with
  -- an entry for each task that has an end time.
  pub enforce_max_count-OldestGone :
      (max_count : ℕ) (s : TaskStatusWithExpiry R)
      → IsValid py s
      → max_count < get_task_count s
      → OldestGone max_count s (enforce_max_count py max_count s)
  unfolding enforce_max_count to_remove_ids get_task get_task_count
  enforce_max_count-OldestGone max_count s v over =
      let d = s.status_dict in
      let ids = to_remove_ids max_count d in
      let whole = sort is_older (tasks_with_time d) in
      let chosen = to_remove_ids-Chosen max_count d v.unique in
      let counted = remove_each-Counted ids 0 d chosen.distinct chosen.within v.unique in
      let too_many : leb (length d) max_count ≡ false = ground arith in
      let kept : List Expiry = select (λ e. not (contains e.task_id ids)) s.expiry_heap in
      rw too_many (record {
        whole = whole;
        stored = sort-perm is_older (tasks_with_time d);
        oldest =
            ordered_split is_older (length d - max_count) whole
              (sort-IsOrdered is_older older_order (tasks_with_time d));
        reads = λ k. lookup-remove_each ids 0 k d;
        removed = omega (arith, counted.number, chosen.number);
        count = omega (arith, counted.rest, chosen.number);
        valid = record {
          heap = py.heapq.heapify-IsHeap kept;
          entries = λ k.
              noted-perm py s.ttl k _ _ kept (py.heapq.heapify-perm kept)
              ∙ ap (λ o. noted s.ttl k o kept) (lookup-remove_each ids 0 k d)
              ∙ noted-kept ids s.ttl k (Dict.lookup k d) s.expiry_heap (v.entries k);
          unique = counted.unique;
        };
      })
