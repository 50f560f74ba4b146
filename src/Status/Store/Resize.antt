-- ===== src/Status/Store/Resize.antt =====
-- `clear_all` and `resize_shards`: what is read afterwards.
use fish_async_task.Prelude.{
  ℕ, zero, suc, ◌<◌, ◌≡◌, refl, ◌∙◌, sym, ap, subst, String, Bool, true, false, none, some, List,
  [], ◌∷◌, arith, get_elem?, replicate, eq_iff, length-replicate, inl, inr, ◌⊎◌, Bool-cases, eqb,
  ltb,
}
use fish_async_task.Prelude.Dict
use fish_async_task.Prelude.Dict.{Dict, lookup-insert, lookup-delete, has-insert, has-delete}
use fish_async_task.Status.{TaskStatusDict}
use fish_async_task.Status.Store.{
  Store, Runtime, or_empty, new, shard_index, get_status, update_status, clear_all, clear_each,
  collect, get_all_statuses, redistribute, resize_collect, resize_install, resize_shards,
}
use fish_async_task.Status.Store.View.{IsValid, get_status-update_status, update_status-IsValid}

pub get_elem?-replicate :
    {A : Type 0} (n i : ℕ) → or_empty (get_elem? (replicate {A = List A} n []) i) ≡ []
get_elem?-replicate zero i = refl
get_elem?-replicate (suc n) zero = refl
get_elem?-replicate (suc n) (suc i) = get_elem?-replicate n i

pub get_elem?-clear_each :
    {A : Type 0} (ds : List (List A)) (i : ℕ) → or_empty (get_elem? (clear_each ds) i) ≡ []
get_elem?-clear_each [] i = refl
get_elem?-clear_each (d ∷ ds) zero = refl
get_elem?-clear_each (d ∷ ds) (suc i) = get_elem?-clear_each ds i

-- `d.update(e)`: the entries of `e` win.
lookup-update :
    {V : Type 0} (d e : Dict V) (k : String)
    → Dict.HasUniqueKeys e
    → Dict.lookup k (Dict.update d e)
      ≡ elim (Dict.lookup k e) [ none ↦ Dict.lookup k d | some v ↦ some v ]
unfolding Dict.update Dict.lookup
lookup-update d [] k u = refl
lookup-update d ((j, v) ∷ e) k u =
    lookup-update (Dict.insert j v d) e k u.1
    ∙ ground (arith, lookup-insert j k v d, Dict.has-eq_lookup k e, eq_iff j k, Dict.has_ext j k e)

positive_count : (n : ℕ) → ltb (suc n) 1 ≡ false
positive_count n = ground arith

module _ {R : Type 0} (py : Runtime) where
  pub new-IsValid : (n ttl : ℕ) → 0 < n → IsValid py (new {R = R} n ttl)
  unfolding new Dict.has
  new-IsValid n ttl h = record {
    positive = h;
    shard_lengths = length-replicate n [];
    heap_lengths = length-replicate n [];
    placed = λ i k e.
        absurd (
          ground
            (arith, ap (Dict.has k) (get_elem?-replicate {A = String × TaskStatusDict R} n i)));
    unique = λ i.
        subst Dict.HasUniqueKeys (sym (get_elem?-replicate {A = String × TaskStatusDict R} n i)) tt;
  }

  get_status-new : (n ttl : ℕ) (k : String) → get_status py (new {R = R} n ttl) k ≡ none
  unfolding new get_status Dict.lookup
  get_status-new n ttl k = ap (Dict.lookup k) (get_elem?-replicate n (shard_index py.hash n k))

  -- What is read after all tasks were given out: the status of each, and else what was there.
  get_status-redistribute :
      (tasks : Dict (TaskStatusDict R)) (s : Store R) (k : String)
      → IsValid py s
      → Dict.HasUniqueKeys tasks
      → get_status py (redistribute py tasks s) k
        ≡ elim (Dict.lookup k tasks) [ none ↦ get_status py s k | some st ↦ some st ]
  unfolding redistribute Dict.lookup
  get_status-redistribute [] s k v u = refl
  get_status-redistribute ((j, st) ∷ tasks) s k v u =
      get_status-redistribute tasks (update_status py s j st) k (update_status-IsValid py s j st v)
        u.1
      ∙ ground (
        arith,
        get_status-update_status py s j k st v,
        Dict.has-eq_lookup k tasks,
        eq_iff j k,
        Dict.has_ext j k tasks,
      )

  redistribute-IsValid :
      (tasks : Dict (TaskStatusDict R)) (s : Store R)
      → IsValid py s
      → IsValid py (redistribute py tasks s)
  unfolding redistribute
  redistribute-IsValid [] s v = v
  redistribute-IsValid ((j, st) ∷ tasks) s v =
      redistribute-IsValid tasks (update_status py s j st) (update_status-IsValid py s j st v)

module _ {R : Type 0} where
  abbrev at : List (Dict (TaskStatusDict R)) → ℕ → Dict (TaskStatusDict R)
  at ds i = or_empty (get_elem? ds i)

  missing_lookup :
      (k : String) (d : Dict (TaskStatusDict R)) → Dict.has k d ≡ false → Dict.lookup k d ≡ none
  missing_lookup k d h = ground (arith, Dict.has-eq_lookup k d)

  lookup-collect_missing :
      (acc : Dict (TaskStatusDict R)) (ds : List (Dict (TaskStatusDict R))) (k : String)
      → ((j : ℕ) → Dict.has k (at ds j) ≡ false)
      → ((j : ℕ) → Dict.HasUniqueKeys (at ds j))
      → Dict.lookup k (collect acc ds) ≡ Dict.lookup k acc
  unfolding collect
  lookup-collect_missing acc [] k m u = refl
  lookup-collect_missing acc (d ∷ ds) k m u =
      lookup-collect_missing (Dict.update acc d) ds k (λ j. m (suc j)) (λ j. u (suc j))
      ∙ ground (arith, lookup-update acc d k (u 0), missing_lookup k d (m 0))

  -- The merged dict reads, for each task, as the one shard that may hold it.
  lookup-collect :
      (acc : Dict (TaskStatusDict R)) (ds : List (Dict (TaskStatusDict R))) (k : String) (i : ℕ)
      → ((j : ℕ) → Dict.has k (at ds j) ≡ true → j ≡ i)
      → ((j : ℕ) → Dict.HasUniqueKeys (at ds j))
      → Dict.lookup k (collect acc ds)
        ≡ elim (Dict.lookup k (at ds i)) [ none ↦ Dict.lookup k acc | some st ↦ some st ]
  unfolding collect Dict.lookup
  lookup-collect acc [] k i p u = refl
  lookup-collect acc (d ∷ ds) k zero p u =
      lookup-collect_missing (Dict.update acc d) ds k (λ j. only_first j) (λ j. u (suc j))
      ∙ lookup-update acc d k (u 0)
    where
      only_first : (j : ℕ) → Dict.has k (at ds j) ≡ false
      only_first j = elim (Bool-cases (Dict.has k (at ds j))) [
        | inl there ↦ absurd (omega (arith, p (suc j) there))
        | inr absent ↦ absent
      ]
  lookup-collect acc (d ∷ ds) k (suc i) p u =
      lookup-collect (Dict.update acc d) ds k i (λ j h. pred_eq (p (suc j) h)) (λ j. u (suc j))
      ∙ ground (arith, lookup-update acc d k (u 0), missing_lookup k d not_first)
    where
      pred_eq : {a b : ℕ} → suc a ≡ suc b → a ≡ b
      pred_eq e = omega arith

      not_first : Dict.has k d ≡ false
      not_first = elim (Bool-cases (Dict.has k d)) [
        | inl there ↦ absurd (omega (arith, p 0 there))
        | inr absent ↦ absent
      ]

  collect-HasUniqueKeys :
      (acc : Dict (TaskStatusDict R)) (ds : List (Dict (TaskStatusDict R)))
      → Dict.HasUniqueKeys acc
      → Dict.HasUniqueKeys (collect acc ds)
  unfolding collect
  collect-HasUniqueKeys acc [] u = u
  collect-HasUniqueKeys acc (d ∷ ds) u =
      collect-HasUniqueKeys (Dict.update acc d) ds (Dict.update-HasUniqueKeys acc d u)

module _ {R : Type 0} (py : Runtime) where
  -- `get_all_statuses` of a valid store returns one dict that reads, for every task, as
  -- `get_status` does.
  pub lookup-get_all_statuses :
      (s : Store R) (k : String)
      → IsValid py s
      → Dict.lookup k (get_all_statuses s) ≡ get_status py s k
  unfolding get_all_statuses get_status Dict.lookup
  lookup-get_all_statuses s k v =
      lookup-collect [] s.shards k (shard_index py.hash s.shard_count k)
        (λ j h. sym (v.placed j k h)) v.unique
      ∙ ground arith

  pub get_status-clear_all : (s : Store R) (k : String) → get_status py (clear_all s) k ≡ none
  unfolding get_status clear_all Dict.lookup
  get_status-clear_all s k =
      ap (Dict.lookup k) (get_elem?-clear_each s.shards (shard_index py.hash s.shard_count k))

  -- After the second half of `resize_shards`, for a positive count and a dict with each task once,
  -- the store reads as this dict, whatever the old shards hold by then: a status stored between the
  -- two halves is lost.
  pub get_status-resize_install :
      (n : ℕ) (tasks : Dict (TaskStatusDict R)) (s : Store R) (k : String)
      → 0 < n
      → Dict.HasUniqueKeys tasks
      → get_status py (resize_install py n tasks s) k ≡ Dict.lookup k tasks
  unfolding resize_install
  get_status-resize_install n tasks s k h u =
      get_status-redistribute py tasks (new n s.ttl) k (new-IsValid py n s.ttl h) u
      ∙ ground (arith, get_status-new {R = R} py n s.ttl k)

  shard_count-redistribute :
      (tasks : Dict (TaskStatusDict R)) (s : Store R)
      → (redistribute py tasks s).shard_count ≡ s.shard_count
  unfolding redistribute update_status
  shard_count-redistribute [] s = refl
  shard_count-redistribute ((j, st) ∷ tasks) s =
      shard_count-redistribute tasks (update_status py s j st)

  -- What a resize to `n` shards has to bring about.
  pub record Resized (s : Store R) (n : ℕ) (r : Bool × Store R) : Type 0 where
    pub answer : r.0 ≡ true
    pub count : r.1.shard_count ≡ n
    pub kept : (k : String) → get_status py r.1 k ≡ get_status py s k
    pub valid : IsValid py r.1

  resize_install-Resized :
      (s : Store R) (n : ℕ)
      → IsValid py s
      → 0 < n
      → Resized s n (true, resize_install py n (resize_collect py s) s)
  resize_install-Resized s n v h = record {
    answer = refl;
    count =
        unfold resize_install new in shard_count-redistribute (resize_collect py s) (new n s.ttl);
    kept = λ k.
        get_status-resize_install n (resize_collect py s) s k h
          (unfold resize_collect get_all_statuses in collect-HasUniqueKeys [] s.shards tt)
        ∙ (unfold resize_collect in lookup-get_all_statuses s k v);
    valid =
        unfold resize_install in
        redistribute-IsValid py (resize_collect py s) (new n s.ttl) (new-IsValid py n s.ttl h);
  }

  -- `resize_shards` of a valid store, which no other thread interrupts, refuses a count of 0 and
  -- changes nothing then; else it answers true, the store is valid and has that many shards, and
  -- every task reads as before.
  pub resize_shards_keeps :
      (s : Store R) (n : ℕ)
      → IsValid py s
      → ((n ≡ 0) × (resize_shards py s n ≡ (false, s)))
        ⊎ ((0 < n) × Resized s n (resize_shards py s n))
  unfolding resize_shards
  resize_shards_keeps s zero v = inl (refl, refl)
  resize_shards_keeps s (suc n) v = inr (
    omega arith,
    elim (Bool-cases (eqb (suc n) s.shard_count)) [
      | inl same ↦
          rw (positive_count n, same)
            (record { answer = refl; count = ground arith; kept = λ k. refl; valid = v })
      | inr other ↦ rw (positive_count n, other) (resize_install-Resized s (suc n) v (omega arith))
    ],
  )
