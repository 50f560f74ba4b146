-- ===== src/Dependencies/Cycles/Topological.antt =====
-- Orders of tasks in which dependencies come first, and cycles.
use fish_async_task.Prelude.{
  ◌≡◌, String, true, ◌==◌, List, [], ◌∷◌, arith, eq_iff, Bool-cases, inl, inr, subst, sym,
}
use fish_async_task.Prelude.Dict.{Dict}
use fish_async_task.Prelude.StringSet
use fish_async_task.Prelude.StringSet.{contains-add, contains-discard, contains_ext}
use fish_async_task.Dependencies.Cycles.Graph.{Edge, Reaches, here, next, Follows, LeadsToCycle}

module _ (d : Dict (List String)) where
  -- Every task of the list depends on later entries alone.
  abbrev pub IsTopological : List String → Type 0
  IsTopological [] = Unit
  IsTopological (x ∷ xs) =
      ((b : String) → Edge d x b → StringSet.contains b xs ≡ true) × IsTopological xs

  Edge-IsTopological :
      (xs : List String) (a b : String)
      → IsTopological xs
      → StringSet.contains a xs ≡ true
      → Edge d a b
      → StringSet.contains b xs ≡ true
  unfolding StringSet.contains
  Edge-IsTopological [] a b t h e = h
  Edge-IsTopological (x ∷ xs) a b t h e = elim (Bool-cases (x == a)) [
    | inl same ↦
        let e' : Edge d x b = subst (λ y. Edge d y b) (sym ((eq_iff x a).0 (ground arith))) e in
        ground (arith, t.0 b e')
    | inr other ↦ ground (arith, Edge-IsTopological xs a b t.1 (ground arith) e)
  ]

  Reaches-IsTopological :
      (xs : List String) {a b : String}
      → IsTopological xs
      → StringSet.contains a xs ≡ true
      → Reaches d a b
      → StringSet.contains b xs ≡ true
  Reaches-IsTopological xs t h here = h
  Reaches-IsTopological xs t h (next {b = m} {c = c} r e) =
      Edge-IsTopological xs m c t (Reaches-IsTopological xs t h r) e

  -- The first edge of a path that has one.
  first-Edge :
      {a b c : String} → Reaches d a b → Edge d b c → (m : String) × Edge d a m × Reaches d m c
  first-Edge {a} {b} {c} here e = (c, e, here)
  first-Edge {a} {b} {c} (next r f) e = let (m, g, s) = first-Edge r f in (m, g, next s e)

  no_round :
      (xs : List String) (a : String)
      → IsTopological xs
      → StringSet.contains a xs ≡ true
      → ¬ Follows d a a
  unfolding StringSet.contains
  no_round [] a t h f = ground arith
  no_round (x ∷ xs) a t h f = elim (Bool-cases (StringSet.contains a xs)) [
    | inl later ↦ no_round xs a t.1 later f
    | inr only_here ↦
        let (m, e, r) = first-Edge f.start f.last in
        let e' : Edge d x m = subst (λ y. Edge d y m) (sym ((eq_iff x a).0 (ground arith))) e in
        ground (arith, Reaches-IsTopological xs t.1 (t.0 m e') r)
  ]

  pub IsTopological-acyclic :
      (xs : List String) (a : String)
      → IsTopological xs
      → StringSet.contains a xs ≡ true
      → ¬ LeadsToCycle d a
  IsTopological-acyclic xs a t h c =
      no_round xs c.turn t (Reaches-IsTopological xs t h c.way) c.round
