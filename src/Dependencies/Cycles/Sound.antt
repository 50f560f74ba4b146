-- ===== src/Dependencies/Cycles/Sound.antt =====
-- The search that answers True, against the cycles of the graph.
use fish_async_task.Prelude.{
  ℕ, zero, suc, ◌≡◌, refl, String, true, false, ◌==◌, List, [], ◌∷◌, arith, eq_iff, eq_refl,
  Bool-cases, inl, inr, subst, sym, ◌∙◌, length,
}
use fish_async_task.Prelude.Dict.{Dict}
use fish_async_task.Prelude.StringSet
use fish_async_task.Prelude.StringSet.{contains-add, contains-discard, contains_ext}
use fish_async_task.Dependencies.{TaskDependencyManager, entry}
use fish_async_task.Dependencies.Cycles.{
  Marks, Search, cycle, no_cycle, exhausted, enter, leave, and_then, search_deps, has_cycle, names,
  has_circular_dependency,
}
use fish_async_task.Dependencies.Cycles.Graph.{
  Edge, Reaches, here, next, Reaches-trans, LeadsToCycle,
}

module _ (d : Dict (List String)) where
  -- Every task on the stack leads to the task at hand, and has been visited.
  record Ancestors (tid : String) (s : Marks) : Type 0 where
    leads : (a : String) → StringSet.contains a s.rec_stack ≡ true → Reaches d a tid
    seen :
        (a : String)
        → StringSet.contains a s.rec_stack ≡ true
        → StringSet.contains a s.visited ≡ true

  -- What a search that started with the marks `s` at `tid` may answer.
  abbrev Sound : String → Marks → Search → Type 0
  Sound tid s cycle = LeadsToCycle d tid
  Sound tid s (no_cycle s') =
      ((a : String) → StringSet.contains a s'.rec_stack ≡ StringSet.contains a s.rec_stack)
      × ((a : String)
          → StringSet.contains a s.visited ≡ true
          → StringSet.contains a s'.visited ≡ true)
  Sound tid s exhausted = Unit

  Sound-step :
      (tid : String) (s s' : Marks) (r : Search)
      → Sound tid s (no_cycle s')
      → Sound tid s' r
      → Sound tid s r
  Sound-step tid s s' cycle h k = k
  Sound-step tid s s' (no_cycle s'') h k = (λ a. k.0 a ∙ h.0 a, λ a e. k.1 a (h.1 a e))
  Sound-step tid s s' exhausted h k = tt

  Ancestors-step :
      (tid : String) (s s' : Marks) → Sound tid s (no_cycle s') → Ancestors tid s → Ancestors tid s'
  Ancestors-step tid s s' h anc = record {
    leads = λ a e. anc.leads a (sym (h.0 a) ∙ e);
    seen = λ a e. h.1 a (anc.seen a (sym (h.0 a) ∙ e));
  }

  -- What the search of a dependency found, for the loop that goes on with it.
  and_then-Sound :
      (tid dep : String) (s : Marks) (r : Search) (rest : Marks → Search)
      → Edge d tid dep
      → Sound dep s r
      → ((s' : Marks) → Sound tid s (no_cycle s') → Sound tid s' (rest s'))
      → Sound tid s (and_then r rest)
  and_then-Sound tid dep s cycle rest e h k = record {
    turn = h.turn;
    way = Reaches-trans (next here e) h.way;
    round = h.round;
  }
  and_then-Sound tid dep s (no_cycle s') rest e h k = Sound-step tid s s' (rest s') h (k s' h)
  and_then-Sound tid dep s exhausted rest e h k = tt

  search_deps-Sound :
      (search : String → Marks → Search) (tid : String)
      → ((dep : String) (s : Marks)
          → Edge d tid dep
          → StringSet.contains dep s.visited ≡ false
          → Ancestors tid s
          → Sound dep s (search dep s))
      → (deps : List String) (s : Marks)
      → ((a : String) → StringSet.contains a deps ≡ true → Edge d tid a)
      → Ancestors tid s
      → Sound tid s (search_deps search deps s)
  unfolding search_deps StringSet.contains
  search_deps-Sound search tid ih [] s edges anc = (λ a. refl, λ a h. h)
  search_deps-Sound search tid ih (dep ∷ deps) s edges anc =
      let e = edges dep (ground (arith, eq_refl dep)) in
      let later = λ (s' : Marks) (anc' : Ancestors tid s').
        search_deps-Sound search tid ih deps s' (λ a h. edges a (ground arith)) anc' in
      elim (Bool-cases (StringSet.contains dep s.visited)) [
        | inl old ↦ rw old (elim (Bool-cases (StringSet.contains dep s.rec_stack)) [
          | inl on_stack ↦ rw on_stack (record {
            turn = dep;
            way = next here e;
            round = record { before_last = tid; start = anc.leads dep on_stack; last = e };
          })
          | inr off_stack ↦ rw off_stack (later s anc)
        ])
        | inr fresh ↦ rw fresh (
            and_then-Sound tid dep s (search dep s) (search_deps search deps) e
              (ih dep s e fresh anc) (λ s' h. later s' (Ancestors-step tid s s' h anc)))
      ]

  enter-Ancestors :
      (parent tid : String) (s : Marks)
      → Edge d parent tid
      → Ancestors parent s
      → Ancestors tid (enter tid s)
  enter-Ancestors parent tid s e anc = record {
    leads = λ a h. elim (Bool-cases (tid == a)) [
      | inl same ↦ subst (λ b. Reaches d b tid) (ground (arith, eq_iff tid a)) here
      | inr other ↦ next (anc.leads a (ground (arith, contains-add tid a s.rec_stack))) e
    ];
    seen = λ a h.
        ground (arith, contains-add tid a s.rec_stack, contains-add tid a s.visited, anc.seen a);
  }

  leave-Sound :
      (tid : String) (s : Marks) (r : Search)
      → StringSet.contains tid s.rec_stack ≡ false
      → Sound tid (enter tid s) r
      → Sound tid s (leave tid r)
  leave-Sound tid s cycle new_one h = h
  leave-Sound tid s (no_cycle s') new_one h = (
    λ a. ground (
      arith,
      contains-discard tid a s'.rec_stack,
      h.0 a,
      contains-add tid a s.rec_stack,
      eq_iff tid a,
      contains_ext tid a s.rec_stack,
    ),
    λ a e. h.1 a (ground (arith, contains-add tid a s.visited)),
  )
  leave-Sound tid s exhausted new_one h = tt

  has_cycle-Sound :
      (fuel : ℕ) (tid : String) (s : Marks)
      → StringSet.contains tid s.rec_stack ≡ false
      → Ancestors tid (enter tid s)
      → Sound tid s (has_cycle d fuel tid s)
  unfolding has_cycle
  has_cycle-Sound zero tid s new_one anc = tt
  has_cycle-Sound (suc fuel) tid s new_one anc =
      leave-Sound tid s (search_deps (has_cycle d fuel) (entry tid d) (enter tid s)) new_one (
        search_deps-Sound (has_cycle d fuel) tid
          (λ dep s' e fresh anc'.
            has_cycle-Sound fuel dep s' (ground (arith, anc'.seen dep))
              (enter-Ancestors tid dep s' e anc'))
          (entry tid d) (enter tid s) (λ a h. h) anc)

-- If the search answers True for a task, then the task leads to a task that depends, directly or
-- through others, on itself.
pub has_circular_dependency_sound :
    (m : TaskDependencyManager) (tid : String)
    → has_circular_dependency m tid ≡ cycle
    → LeadsToCycle m.dependencies tid
unfolding has_circular_dependency StringSet.contains StringSet.add
has_circular_dependency_sound m tid e =
    subst (Sound m.dependencies tid (record { visited = []; rec_stack = [] })) e (
      has_cycle-Sound m.dependencies (suc (length (names m.dependencies))) tid
        (record { visited = []; rec_stack = [] }) refl
        (record {
          leads =
              λ a h. subst (λ b. Reaches m.dependencies b tid) (ground (arith, eq_iff tid a)) here;
          seen = λ a h. h;
        }))
