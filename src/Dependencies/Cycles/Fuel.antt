-- ===== src/Dependencies/Cycles/Fuel.antt =====
-- The fuel of the search: each call of `_has_cycle` marks one more name of the dict.
use fish_async_task.Prelude.{
  ℕ, zero, suc, ◌≤◌, ◌<◌, ◌≡◌, ◌≢◌, refl, String, Bool, true, false, not, ◌||◌, ◌==◌, List, [], ◌∷◌,
  ◌++◌, arith, length, eq_iff, eq_refl, Bool-cases, inl, inr, count,
}
use fish_async_task.Prelude.Dict
use fish_async_task.Prelude.Dict.{Dict}
use fish_async_task.Prelude.StringSet
use fish_async_task.Prelude.StringSet.{contains-add}
use fish_async_task.Dependencies.{TaskDependencyManager, entry}
use fish_async_task.Dependencies.Cycles.{
  Marks, Search, cycle, no_cycle, exhausted, enter, leave, and_then, search_deps, has_cycle, names,
  has_circular_dependency,
}
use fish_async_task.Dependencies.Cycles.Graph.{Edge}

count_mono :
    (p q : String → Bool) (xs : List String)
    → ((a : String) → p a ≡ true → q a ≡ true)
    → count p xs ≤ count q xs
count_mono p q [] h = omega arith
count_mono p q (x ∷ xs) h = ground (arith, count_mono p q xs h, h x)

count-lt :
    (p q : String → Bool) (b : String) (xs : List String)
    → ((a : String) → p a ≡ true → q a ≡ true)
    → StringSet.contains b xs ≡ true
    → p b ≡ false
    → q b ≡ true
    → count p xs < count q xs
unfolding StringSet.contains
count-lt p q b [] h m e f = absurd (ground arith)
count-lt p q b (x ∷ xs) h m e f = elim (Bool-cases (x == b)) [
  | inl same ↦ let s : x ≡ b = (eq_iff x b).0 same in ground (arith, count_mono p q xs h, s)
  | inr other ↦ ground (arith, count-lt p q b xs h (ground arith) e f, h x)
]

count-le-length : (p : String → Bool) (xs : List String) → count p xs ≤ length xs
count-le-length p [] = omega arith
count-le-length p (x ∷ xs) = ground (arith, count-le-length p xs)

contains-append :
    (k : String) (xs ys : List String)
    → StringSet.contains k (xs ++ ys) ≡ (StringSet.contains k xs || StringSet.contains k ys)
unfolding StringSet.contains
contains-append k [] ys = refl
contains-append k (x ∷ xs) ys = ground (arith, contains-append k xs ys)

-- The end of every edge is a name of the dict.
Edge-names :
    (d : Dict (List String)) (a b : String) → Edge d a b → StringSet.contains b (names d) ≡ true
unfolding names entry Dict.lookup StringSet.contains
Edge-names [] a b e = e
Edge-names ((k, xs) ∷ d) a b e = ground (arith, Edge-names d a b, contains-append b xs (names d))

-- The names of the dict that the search has not visited yet.
abbrev unvisited : Dict (List String) → Marks → ℕ
unvisited d s = count (λ a. not (StringSet.contains a s.visited)) (names d)

module _ (d : Dict (List String)) where
  -- The search ended, and forgot no visited task.
  abbrev Ends : Marks → Search → Type 0
  Ends s cycle = Unit
  Ends s (no_cycle s') =
      (a : String) → StringSet.contains a s.visited ≡ true → StringSet.contains a s'.visited ≡ true
  Ends s exhausted = ⊥

  unvisited-le : (s : Marks) → unvisited d s ≤ length (names d)
  unvisited-le s = count-le-length (λ a. not (StringSet.contains a s.visited)) (names d)

  unvisited_mono : (s s' : Marks) → Ends s (no_cycle s') → unvisited d s' ≤ unvisited d s
  unvisited_mono s s' h = count_mono _ _ (names d) (λ a e. ground (arith, h a))

  unvisited-enter :
      (dep : String) (s : Marks)
      → StringSet.contains dep (names d) ≡ true
      → StringSet.contains dep s.visited ≡ false
      → unvisited d (enter dep s) < unvisited d s
  unvisited-enter dep s there fresh =
      count-lt _ _ dep (names d) (λ a e. ground (arith, contains-add dep a s.visited)) there
        (ground (arith, contains-add dep dep s.visited, eq_refl dep)) (ground arith)

  Ends-step : (s s' : Marks) (r : Search) → Ends s (no_cycle s') → Ends s' r → Ends s r
  Ends-step s s' cycle h k = tt
  Ends-step s s' (no_cycle s'') h k = λ a e. k a (h a e)
  Ends-step s s' exhausted h k = k

  and_then-Ends :
      (s : Marks) (r : Search) (rest : Marks → Search)
      → Ends s r
      → ((s' : Marks) → Ends s (no_cycle s') → Ends s' (rest s'))
      → Ends s (and_then r rest)
  and_then-Ends s cycle rest h k = tt
  and_then-Ends s (no_cycle s') rest h k = Ends-step s s' (rest s') h (k s' h)
  and_then-Ends s exhausted rest h k = h

  search_deps-Ends :
      (search : String → Marks → Search) (fuel : ℕ)
      → ((dep : String) (s : Marks)
          → StringSet.contains dep (names d) ≡ true
          → StringSet.contains dep s.visited ≡ false
          → unvisited d s ≤ fuel
          → Ends s (search dep s))
      → (deps : List String) (s : Marks)
      → ((a : String) → StringSet.contains a deps ≡ true → StringSet.contains a (names d) ≡ true)
      → unvisited d s ≤ fuel
      → Ends s (search_deps search deps s)
  unfolding search_deps StringSet.contains
  search_deps-Ends search fuel ih [] s named enough = λ a e. e
  search_deps-Ends search fuel ih (dep ∷ deps) s named enough =
      let there = named dep (ground (arith, eq_refl dep)) in
      let later = λ (s' : Marks) (h : unvisited d s' ≤ fuel).
        search_deps-Ends search fuel ih deps s' (λ a m. named a (ground arith)) h in
      elim (Bool-cases (StringSet.contains dep s.visited)) [
        | inl old ↦ rw old (elim (Bool-cases (StringSet.contains dep s.rec_stack)) [
          | inl on_stack ↦ rw on_stack tt
          | inr off_stack ↦ rw off_stack (later s enough)
        ])
        | inr fresh ↦ rw fresh (
            and_then-Ends s (search dep s) (search_deps search deps) (ih dep s there fresh enough)
              (λ s' h. later s' (omega (arith, unvisited_mono s s' h))))
      ]

  leave-Ends : (tid : String) (s : Marks) (r : Search) → Ends (enter tid s) r → Ends s (leave tid r)
  leave-Ends tid s cycle h = tt
  leave-Ends tid s (no_cycle s') h = λ a e. h a (ground (arith, contains-add tid a s.visited))
  leave-Ends tid s exhausted h = h

  has_cycle-Ends :
      (fuel : ℕ) (tid : String) (s : Marks)
      → unvisited d (enter tid s) < fuel
      → Ends s (has_cycle d fuel tid s)
  unfolding has_cycle
  has_cycle-Ends zero tid s h = absurd (omega arith)
  has_cycle-Ends (suc fuel) tid s h =
      leave-Ends tid s (search_deps (has_cycle d fuel) (entry tid d) (enter tid s)) (
        search_deps-Ends (has_cycle d fuel) fuel
          (λ dep s' there fresh enough.
            has_cycle-Ends fuel dep s' (omega (arith, unvisited-enter dep s' there fresh)))
          (entry tid d) (enter tid s) (λ a m. Edge-names d tid a m) (omega arith))

pub has_circular_dependency-ends :
    (m : TaskDependencyManager) (tid : String) → has_circular_dependency m tid ≢ exhausted
unfolding has_circular_dependency
has_circular_dependency-ends m tid = ends _ (
    has_cycle-Ends m.dependencies (suc (length (names m.dependencies))) tid
      (record { visited = []; rec_stack = [] })
      (omega
        (arith, unvisited-le m.dependencies (enter tid (record { visited = []; rec_stack = [] })))))
  where
    ends :
        (r : Search)
        → Ends m.dependencies (record { visited = []; rec_stack = [] }) r
        → r ≢ exhausted
    ends cycle h = λ e. ground arith
    ends (no_cycle s) h = λ e. ground arith
    ends exhausted h = absurd h
