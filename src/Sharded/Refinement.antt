-- ===== src/Sharded/Refinement.antt =====
-- The sharded store against the one map that its calls describe. Its shards are those of the store
-- with expiry, whose theorems are used.
use fish_async_task.Prelude.{
  ℕ, suc, ◌<◌, ◌≤◌, ◌≡◌, refl, ◌∙◌, sym, ap, subst, String, Bool, false, Option, none, some, List,
  [], ◌∷◌, arith, if◌then◌else◌, length, replicate, ◌==◌, eq_iff, Bool-cases, inl, inr,
}
use fish_async_task.Prelude.Int.{pos}
use fish_async_task.Prelude.Dict
use fish_async_task.Prelude.Dict.{Dict, has-eq_lookup}
use fish_async_task.Prelude.Heapq.{WeakOrder, ordered_heapq}
use fish_async_task.Status.{TaskStatusDict}
use fish_async_task.Status.Store
use fish_async_task.Status.Store.{Store, Runtime, expires_before, sizes, collect, clear_each}
use fish_async_task.Status.Store.View
use fish_async_task.Status.Store.Resize
use fish_async_task.Sharded.{
  ShardedTaskStatus, validate_shard_count, new, compute_shard_index, shard_at, get_status,
  update_status, remove_status, update_from, get_all_statuses, clear_all,
}

never_before : String → String → Bool
never_before a b = false

expiry_order : WeakOrder (expires_before never_before)
unfolding never_before
expiry_order = record { asymm = λ a b h. ground arith; trans = λ a b c h k. ground arith }

-- The calls that change the store.
pub data Call (R : Type 0) : Type 0 where
  updates : String → TaskStatusDict R → Call R
  removes : String → Call R
  clears : Call R

-- The map that the calls describe.
abbrev pub described :
    {R : Type 0}
    → (String → Option (TaskStatusDict R))
    → List (Call R)
    → String
    → Option (TaskStatusDict R)
described m [] j = m j
described m (updates k st ∷ cs) j = described (λ i. if k == i then some st else m i) cs j
described m (removes k ∷ cs) j = described (λ i. if k == i then none else m i) cs j
described m (clears ∷ cs) j = described (λ i. none) cs j

abbrev runtime : (String → ℕ) → Runtime
runtime hash_int = record {
  hash = λ k. pos (hash_int k);
  id_lt = never_before;
  heapq = ordered_heapq (expires_before never_before) expiry_order;
}

-- The store with expiry that has the same shards.
abbrev with_heaps : {R : Type 0} → ShardedTaskStatus R → Store R
with_heaps s = record {
  shard_count = s.shard_count;
  ttl = 0;
  shards = s.shards;
  expiry_heaps = replicate s.shard_count [];
}

length-clear_each : {A : Type 0} (ds : List (List A)) → length (clear_each ds) ≡ length ds
length-clear_each [] = refl
length-clear_each (d ∷ ds) = ap suc (length-clear_each ds)

module _ {R : Type 0} (hash_int : String → ℕ) where
  pub IsValid : ShardedTaskStatus R → Type 0
  IsValid s = View.IsValid (runtime hash_int) (with_heaps s)

  unfoldable pub step : ShardedTaskStatus R → Call R → ShardedTaskStatus R
  step s (updates k st) = update_status hash_int s k st
  step s (removes k) = remove_status hash_int s k
  step s clears = clear_all s

  unfoldable pub run : ShardedTaskStatus R → List (Call R) → ShardedTaskStatus R
  run s [] = s
  run s (c ∷ cs) = run (step s c) cs

  get_status_lem :
      (s : ShardedTaskStatus R) (k : String)
      → get_status hash_int s k ≡ Store.get_status (runtime hash_int) (with_heaps s) k
  unfolding get_status Store.get_status compute_shard_index Store.shard_index
  get_status_lem s k = refl

  update_status-IsValid :
      (s : ShardedTaskStatus R) (k : String) (st : TaskStatusDict R)
      → IsValid s
      → IsValid (update_status hash_int s k st)
  unfolding IsValid update_status compute_shard_index Store.update_status Store.shard_index
  update_status-IsValid s k st v =
      let w = View.update_status-IsValid (runtime hash_int) (with_heaps s) k st v in
      record {
        positive = v.positive;
        shard_lengths = w.shard_lengths;
        heap_lengths = v.heap_lengths;
        placed = w.placed;
        unique = w.unique;
      }

  get_status-update_status :
      (s : ShardedTaskStatus R) (k j : String) (st : TaskStatusDict R)
      → IsValid s
      → get_status hash_int (update_status hash_int s k st) j
        ≡ (if k == j then some st else get_status hash_int s j)
  unfolding IsValid get_status update_status compute_shard_index Store.get_status
      Store.update_status Store.shard_index
  get_status-update_status s k j st v =
      View.get_status-update_status (runtime hash_int) (with_heaps s) k j st v

  missing :
      (s : ShardedTaskStatus R) (k j : String)
      → Dict.has k (shard_at s.shards (compute_shard_index hash_int k s.shard_count)) ≡ false
      → get_status hash_int s j ≡ (if k == j then none else get_status hash_int s j)
  unfolding get_status
  missing s k j h = ground (
    arith,
    eq_iff k j,
    has-eq_lookup k (shard_at s.shards (compute_shard_index hash_int k s.shard_count)),
  )

  get_status-remove_status :
      (s : ShardedTaskStatus R) (k j : String)
      → IsValid s
      → get_status hash_int (remove_status hash_int s k) j
        ≡ (if k == j then none else get_status hash_int s j)
  unfolding IsValid get_status remove_status compute_shard_index Store.get_status
      Store.remove_status Store.shard_index
  get_status-remove_status s k j v =
      elim (Bool-cases
        (Dict.has k (shard_at s.shards (compute_shard_index hash_int k s.shard_count)))) [
          | inl there ↦
              rw there (View.get_status-remove_status (runtime hash_int) (with_heaps s) k j v)
          | inr gone ↦ rw gone (missing s k j gone)
        ]

  remove_status-IsValid :
      (s : ShardedTaskStatus R) (k : String) → IsValid s → IsValid (remove_status hash_int s k)
  unfolding IsValid remove_status compute_shard_index Store.remove_status Store.shard_index
  remove_status-IsValid s k v =
      elim (Bool-cases
        (Dict.has k (shard_at s.shards (compute_shard_index hash_int k s.shard_count)))) [
          | inl there ↦ rw there (View.remove_status-IsValid (runtime hash_int) (with_heaps s) k v)
          | inr gone ↦ rw gone v
        ]

  get_status-clear_all :
      (s : ShardedTaskStatus R) (j : String) → get_status hash_int (clear_all s) j ≡ none
  unfolding get_status clear_all Dict.lookup
  get_status-clear_all s j =
      ap (Dict.lookup j)
        (Resize.get_elem?-clear_each s.shards (compute_shard_index hash_int j s.shard_count))

  clear_all-IsValid : (s : ShardedTaskStatus R) → IsValid s → IsValid (clear_all s)
  unfolding IsValid clear_all Dict.has
  clear_all-IsValid s v = record {
    positive = v.positive;
    shard_lengths = length-clear_each s.shards ∙ v.shard_lengths;
    heap_lengths = v.heap_lengths;
    placed = λ i k h. absurd (ground (arith, Resize.get_elem?-clear_each s.shards i));
    unique = λ i. subst Dict.HasUniqueKeys (sym (Resize.get_elem?-clear_each s.shards i)) tt;
  }

  -- The store is in order and reads as the map.
  record Reads (s : ShardedTaskStatus R) (m : String → Option (TaskStatusDict R)) : Type 0 where
    valid : IsValid s
    reads : (j : String) → get_status hash_int s j ≡ m j

  run-Reads :
      (cs : List (Call R)) (s : ShardedTaskStatus R) (m : String → Option (TaskStatusDict R))
      → Reads s m
      → Reads (run s cs) (described m cs)
  unfolding run step
  run-Reads [] s m r = r
  run-Reads (updates k st ∷ cs) s m r =
      run-Reads cs (update_status hash_int s k st) (λ j. if k == j then some st else m j)
        (record {
          valid = update_status-IsValid s k st r.valid;
          reads = λ j. get_status-update_status s k j st r.valid ∙ rw (r.reads j) refl;
        })
  run-Reads (removes k ∷ cs) s m r =
      run-Reads cs (remove_status hash_int s k) (λ j. if k == j then none else m j)
        (record {
          valid = remove_status-IsValid s k r.valid;
          reads = λ j. get_status-remove_status s k j r.valid ∙ rw (r.reads j) refl;
        })
  run-Reads (clears ∷ cs) s m r =
      run-Reads cs (clear_all s) (λ j. none)
        (record { valid = clear_all-IsValid s r.valid; reads = λ j. get_status-clear_all s j })

  update_from-eq_collect :
      (ds : List (Dict (TaskStatusDict R))) (d : Dict (TaskStatusDict R))
      → update_from d ds ≡ collect d ds
  unfolding update_from collect
  update_from-eq_collect [] d = refl
  update_from-eq_collect (e ∷ ds) d = update_from-eq_collect ds (Dict.update d e)

  lookup-get_all_statuses :
      (s : ShardedTaskStatus R) (j : String)
      → IsValid s
      → Dict.lookup j (get_all_statuses s) ≡ get_status hash_int s j
  unfolding IsValid get_all_statuses Store.get_all_statuses
  lookup-get_all_statuses s j v =
      ap (Dict.lookup j) (update_from-eq_collect s.shards [])
      ∙ Resize.lookup-get_all_statuses (runtime hash_int) (with_heaps s) j v
      ∙ sym (get_status_lem s j)

  -- A new store of a count that is accepted, after a history of calls.
  pub record Follows (n : ℕ) (cs : List (Call R)) (s : ShardedTaskStatus R) : Type 0 where
    pub created : new n ≡ some s
    pub reads : (j : String) → get_status hash_int (run s cs) j ≡ described (λ j. none) cs j
    pub lists :
        (j : String) → Dict.lookup j (get_all_statuses (run s cs)) ≡ described (λ j. none) cs j

  new-Reads :
      (n : ℕ) → 0 < n → Reads (record { shard_count = n; shards = replicate n [] }) (λ j. none)
  unfolding IsValid get_status Dict.lookup
  new-Reads n h = record {
    valid = unfold Store.new in Resize.new-IsValid {R = R} (runtime hash_int) n 0 h;
    reads =
        λ j. ap (Dict.lookup j) (Resize.get_elem?-replicate n (compute_shard_index hash_int j n));
  }

  -- A count from 1 to 1024 is accepted by the constructor, and whatever sequence of updates,
  -- removals and clearances follows, `get_status` and the dict of `get_all_statuses` read, for
  -- every task, as the one map that the calls describe.
  pub run_described :
      (n : ℕ) (cs : List (Call R)) → 0 < n → n ≤ 1024 → (s : ShardedTaskStatus R) × Follows n cs s
  unfolding new validate_shard_count
  run_described n cs h k =
      let s : ShardedTaskStatus R = record { shard_count = n; shards = replicate n [] } in
      let r = run-Reads cs s (λ j. none) (new-Reads n h) in
      (
        s,
        record {
          created = ground arith;
          reads = r.reads;
          lists = λ j. lookup-get_all_statuses (run s cs) j r.valid ∙ r.reads j;
        },
      )
