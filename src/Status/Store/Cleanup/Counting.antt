-- ===== src/Status/Store/Cleanup/Counting.antt =====
-- The number that `cleanup_expired` returns, and its limit.
use fish_async_task.Prelude.{
  ℕ, zero, suc, ◌+◌, ◌≤◌, ◌≡◌, refl, ap, String, false, Option, none, some, List, [], ◌∷◌, arith,
  length, ltb, inl, inr, Bool-cases, All,
}
use fish_async_task.Prelude.Dict
use fish_async_task.Prelude.Dict.{Dict, length-delete, delete-HasUniqueKeys, HasUniqueKeys}
use fish_async_task.Status.{TaskStatusDict}
use fish_async_task.Status.Store.{Store, Runtime, Expiry, sizes, get_total_count}
use fish_async_task.Status.Store.Cleanup.{
  Sweep, Swept, spent, spend, overdue?, drop_task, then_drop, due, sweep, sweep_shard, sweep_all,
  cleanup_expired,
}

-- What has been removed and what may still be removed add up to the limit.
abbrev pub Within : ℕ → Option ℕ → ℕ → Option ℕ → Type 0
Within count none count' remaining' = remaining' ≡ none
Within count (some n) count' none = ⊥
Within count (some n) count' (some n') = count' + n' ≡ count + n

Within-refl : (c : ℕ) (r : Option ℕ) → Within c r c r
Within-refl c none = refl
Within-refl c (some n) = refl

Within-trans : (a b c : ℕ) (p q r : Option ℕ) → Within a p b q → Within b q c r → Within a p c r
Within-trans a b c none q r h k = ground arith
Within-trans a b c (some n) none r h k = absurd h
Within-trans a b c (some n) (some m) none h k = k
Within-trans a b c (some n) (some m) (some l) h k = omega arith

spend-Within : (c : ℕ) (r : Option ℕ) → spent r ≡ false → Within c r (c + 1) (spend r)
spend-Within c none h = refl
spend-Within c (some n) h = ground arith

chain_bound :
    (c c' total : ℕ) (r r' : Option ℕ)
    → Within c r c' r'
    → ((m : ℕ) → r' ≡ some m → total ≤ c' + m)
    → (n : ℕ) → r ≡ some n
    → total ≤ c + n
chain_bound c c' total none r' h k n e = cc
chain_bound c c' total (some m) none h k n e = absurd h
chain_bound c c' total (some m) (some m') h k n e = ground (arith, k m' refl)

module _ {R : Type 0} where
  -- From `w` to `w'` each removal was counted, and the limit was kept.
  record Counts (w w' : Sweep R) : Type 0 where
    unique : HasUniqueKeys w'.tasks
    balance : w'.cleaned_count + length w'.tasks ≡ w.cleaned_count + length w.tasks
    within : Within w.cleaned_count w.remaining w'.cleaned_count w'.remaining

  Counts-refl : (w : Sweep R) → HasUniqueKeys w.tasks → Counts w w
  Counts-refl w u = record {
    unique = u;
    balance = refl;
    within = Within-refl w.cleaned_count w.remaining;
  }

  Counts-trans : (a b c : Sweep R) → Counts a b → Counts b c → Counts a c
  Counts-trans a b c h k = record {
    unique = k.unique;
    balance = omega (arith, h.balance, k.balance);
    within =
        Within-trans a.cleaned_count b.cleaned_count c.cleaned_count a.remaining b.remaining
          c.remaining h.within k.within;
  }

  drop_task-Counts :
      (now ttl : ℕ) (k : String) (w : Sweep R)
      → HasUniqueKeys w.tasks
      → spent w.remaining ≡ false
      → Counts w (drop_task now ttl k w)
  unfolding drop_task
  drop_task-Counts now ttl k w u h = elim (Bool-cases (overdue? now ttl (Dict.lookup k w.tasks))) [
    | inl late ↦ rw late (record {
      unique = delete-HasUniqueKeys k w.tasks u;
      balance = ground (arith, length-delete k w.tasks u, Dict.has-eq_lookup k w.tasks);
      within = spend-Within w.cleaned_count w.remaining h;
    })
    | inr in_time ↦ rw in_time (Counts-refl w u)
  ]

module _ {R : Type 0} (py : Runtime) (now ttl : ℕ) where
  then_drop-Counts :
      (again : Sweep R → Sweep R) (w : Sweep R) (o : Option (Expiry × List Expiry))
      → HasUniqueKeys w.tasks
      → spent w.remaining ≡ false
      → ((w' : Sweep R) → HasUniqueKeys w'.tasks → Counts w' (again w'))
      → Counts w (then_drop py now ttl again w o)
  unfolding then_drop
  then_drop-Counts again w none u h ih = Counts-refl w u
  then_drop-Counts again w (some (e, rest)) u h ih =
      let w' : Sweep R = record w { heap = rest } in
      let dropped = drop_task-Counts now ttl e.task_id w' u h in
      let c = Counts-trans w' (drop_task now ttl e.task_id w') _ dropped (ih _ dropped.unique) in
      record { unique = c.unique; balance = c.balance; within = c.within }

  due-Counts :
      (again : Sweep R → Sweep R) (w : Sweep R) (h : List Expiry)
      → HasUniqueKeys w.tasks
      → spent w.remaining ≡ false
      → ((w' : Sweep R) → HasUniqueKeys w'.tasks → Counts w' (again w'))
      → Counts w (due py now ttl again w h)
  unfolding due
  due-Counts again w [] u h ih = Counts-refl w u
  due-Counts again w (e ∷ rest) u h ih = elim (Bool-cases (ltb now e.time)) [
    | inl ahead ↦ rw ahead (Counts-refl w u)
    | inr past ↦ rw past (then_drop-Counts again w (py.heapq.heappop (e ∷ rest)) u h ih)
  ]

  sweep-Counts :
      (fuel : ℕ) (w : Sweep R) → HasUniqueKeys w.tasks → Counts w (sweep py now ttl fuel w)
  unfolding sweep
  sweep-Counts zero w u = Counts-refl w u
  sweep-Counts (suc fuel) w u = elim (Bool-cases (spent w.remaining)) [
    | inl no_more ↦ rw no_more (Counts-refl w u)
    | inr more ↦
        rw more
          (due-Counts (sweep py now ttl fuel) w w.heap u more (λ w' u'. sweep-Counts fuel w' u'))
  ]

  pub record CountsAll (count : ℕ) (remaining : Option ℕ) (ds : List (Dict (TaskStatusDict R)))
      (hs : List (List Expiry)) (r : Swept R) : Type 0 where
    pub balance : r.count + sizes r.shards ≡ count + sizes ds
    pub bounded : (n : ℕ) → remaining ≡ some n → r.count ≤ count + n
    pub unique : All HasUniqueKeys r.shards
    pub shard_number : length r.shards ≡ length ds
    pub heap_number : length r.heaps ≡ length hs

  pub sweep_all-Counts :
      (count : ℕ) (remaining : Option ℕ) (ds : List (Dict (TaskStatusDict R)))
      (hs : List (List Expiry))
      → All HasUniqueKeys ds
      → CountsAll count remaining ds hs (sweep_all py now ttl count remaining ds hs)
  unfolding sweep_all sweep_shard
  sweep_all-Counts count remaining [] hs u = record {
    balance = refl;
    bounded = λ n e. omega arith;
    unique = u;
    shard_number = refl;
    heap_number = refl;
  }
  sweep_all-Counts count remaining (d ∷ ds) [] u = record {
    balance = refl;
    bounded = λ n e. omega arith;
    unique = u;
    shard_number = refl;
    heap_number = refl;
  }
  sweep_all-Counts count remaining (d ∷ ds) (h ∷ hs) u = elim (Bool-cases (spent remaining)) [
    | inl no_more ↦ rw no_more (record {
      balance = refl;
      bounded = λ n e. omega arith;
      unique = u;
      shard_number = refl;
      heap_number = refl;
    })
    | inr more ↦
        let w =
          sweep py now ttl (length h)
            (record { tasks = d; heap = h; cleaned_count = count; remaining = remaining }) in
        let c =
          sweep-Counts (length h)
            (record { tasks = d; heap = h; cleaned_count = count; remaining = remaining }) u.0 in
        let rest = sweep_all-Counts w.cleaned_count w.remaining ds hs u.1 in
        rw more (record {
          balance = omega (arith, c.balance, rest.balance);
          bounded = chain_bound count w.cleaned_count _ remaining w.remaining c.within rest.bounded;
          unique = (c.unique, rest.unique);
          shard_number = ap suc rest.shard_number;
          heap_number = ap suc rest.heap_number;
        })
  ]

-- When each shard has each task once, `cleanup_expired` returns the number of tasks by which the
-- store has become smaller, which is at most `max_cleanup` where that is given.
pub cleanup_expired_count :
    {R : Type 0} (py : Runtime) (now : ℕ) (s : Store R) (max_cleanup : Option ℕ)
    → All HasUniqueKeys s.shards
    → ((cleanup_expired py now s max_cleanup).0
          + get_total_count (cleanup_expired py now s max_cleanup).1
        ≡ get_total_count s)
      × ((n : ℕ) → max_cleanup ≡ some n → (cleanup_expired py now s max_cleanup).0 ≤ n)
unfolding cleanup_expired get_total_count
cleanup_expired_count py now s max_cleanup u =
    let c = sweep_all-Counts py now s.ttl 0 max_cleanup s.shards s.expiry_heaps u in
    (omega (arith, c.balance), λ n e. omega (arith, c.bounded n e))
