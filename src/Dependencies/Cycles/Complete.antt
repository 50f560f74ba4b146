-- ===== src/Dependencies/Cycles/Complete.antt =====
-- The search that answers False, against the cycles of the graph. The tasks that it left are kept,
-- as a ghost, in the order in which it left them: each depends on earlier ones alone.
use fish_async_task.Prelude.{
  ℕ, zero, suc, ◌≡◌, refl, String, true, false, ◌||◌, List, [], ◌∷◌, arith, eq_iff, eq_refl,
  Bool-cases, inl, inr, ◌∙◌, length,
}
use fish_async_task.Prelude.Dict.{Dict}
use fish_async_task.Prelude.StringSet
use fish_async_task.Prelude.StringSet.{contains-add, contains-discard, contains_ext}
use fish_async_task.Dependencies.{TaskDependencyManager, entry}
use fish_async_task.Dependencies.Cycles.{
  Marks, Search, cycle, no_cycle, exhausted, enter, leave, and_then, search_deps, has_cycle, names,
  has_circular_dependency,
}
use fish_async_task.Dependencies.Cycles.Graph.{LeadsToCycle}
use fish_async_task.Dependencies.Cycles.Topological.{IsTopological, IsTopological-acyclic}

module _ (d : Dict (List String)) where
  -- What the marks say of the tasks `left` that were left.
  pub record Accounts (left : List String) (s : Marks) : Type 0 where
    pub topological : IsTopological d left
    pub seen :
        (a : String)
        → StringSet.contains a s.visited
          ≡ (StringSet.contains a left || StringSet.contains a s.rec_stack)

  -- After a search that answers False every task of `goals` has been left.
  pub record After (goals left : List String) (s s' : Marks) : Type 0 where
    pub left' : List String
    pub accounts : Accounts left' s'
    pub reached :
        (a : String) → StringSet.contains a goals ≡ true → StringSet.contains a left' ≡ true
    pub grows : (a : String) → StringSet.contains a left ≡ true → StringSet.contains a left' ≡ true
    pub same_stack :
        (a : String) → StringSet.contains a s'.rec_stack ≡ StringSet.contains a s.rec_stack

  abbrev pub Complete : List String → List String → Marks → Search → Type 0
  Complete goals left s cycle = Unit
  Complete goals left s (no_cycle s') = After goals left s s'
  Complete goals left s exhausted = Unit

  cons_goal :
      (dep : String) (deps left : List String) (s : Marks) (r : Search)
      → StringSet.contains dep left ≡ true
      → Complete deps left s r
      → Complete (dep ∷ deps) left s r
  unfolding StringSet.contains
  cons_goal dep deps left s cycle h c = tt
  cons_goal dep deps left s (no_cycle s') h c = record {
    left' = c.left';
    accounts = c.accounts;
    reached =
        λ a k. ground (arith, c.reached a, c.grows dep h, eq_iff dep a, contains_ext dep a c.left');
    grows = c.grows;
    same_stack = c.same_stack;
  }
  cons_goal dep deps left s exhausted h c = tt

  Complete-step :
      (goals done left : List String) (s s' : Marks) (r : Search) (a : After done left s s')
      → Complete goals a.left' s' r
      → Complete goals left s r
  Complete-step goals done left s s' cycle a c = tt
  Complete-step goals done left s s' (no_cycle s'') a c = record {
    left' = c.left';
    accounts = c.accounts;
    reached = c.reached;
    grows = λ x h. c.grows x (a.grows x h);
    same_stack = λ x. c.same_stack x ∙ a.same_stack x;
  }
  Complete-step goals done left s s' exhausted a c = tt

  and_then-Complete :
      (dep : String) (deps left : List String) (s : Marks) (r : Search) (rest : Marks → Search)
      → Complete (dep ∷ []) left s r
      → ((s' : Marks) (left' : List String) → Accounts left' s' → Complete deps left' s' (rest s'))
      → Complete (dep ∷ deps) left s (and_then r rest)
  unfolding StringSet.contains
  and_then-Complete dep deps left s cycle rest c k = tt
  and_then-Complete dep deps left s (no_cycle s') rest c k =
      Complete-step (dep ∷ deps) (dep ∷ []) left s s' (rest s') c (
        cons_goal dep deps c.left' s' (rest s') (c.reached dep (ground (arith, eq_refl dep)))
          (k s' c.left' c.accounts))
  and_then-Complete dep deps left s exhausted rest c k = tt

  search_deps-Complete :
      (search : String → Marks → Search)
      → ((dep : String) (s : Marks) (left : List String)
          → Accounts left s
          → StringSet.contains dep s.visited ≡ false
          → Complete (dep ∷ []) left s (search dep s))
      → (deps : List String) (s : Marks) (left : List String) → Accounts left s
      → Complete deps left s (search_deps search deps s)
  unfolding search_deps StringSet.contains
  search_deps-Complete search ih [] s left acc = record {
    left' = left;
    accounts = acc;
    reached = λ a h. ground arith;
    grows = λ a h. h;
    same_stack = λ a. refl;
  }
  search_deps-Complete search ih (dep ∷ deps) s left acc =
      elim (Bool-cases (StringSet.contains dep s.visited)) [
        | inl old ↦ rw old (elim (Bool-cases (StringSet.contains dep s.rec_stack)) [
          | inl on_stack ↦ rw on_stack tt
          | inr off_stack ↦ rw off_stack (
              cons_goal dep deps left s (search_deps search deps s) (ground (arith, acc.seen dep))
                (search_deps-Complete search ih deps s left acc))
        ])
        | inr fresh ↦ rw fresh (
            and_then-Complete dep deps left s (search dep s) (search_deps search deps)
              (ih dep s left acc fresh)
              (λ s' left' acc'. search_deps-Complete search ih deps s' left' acc'))
      ]

  enter-Accounts :
      (tid : String) (s : Marks) (left : List String)
      → Accounts left s
      → Accounts left (enter tid s)
  enter-Accounts tid s left acc = record {
    topological = acc.topological;
    seen = λ a.
        ground (arith, contains-add tid a s.visited, contains-add tid a s.rec_stack, acc.seen a);
  }

  leave-Complete :
      (tid : String) (s : Marks) (left : List String) (r : Search)
      → Accounts left s
      → StringSet.contains tid s.visited ≡ false
      → Complete (entry tid d) left (enter tid s) r
      → Complete (tid ∷ []) left s (leave tid r)
  unfolding StringSet.contains
  leave-Complete tid s left cycle acc fresh c = tt
  leave-Complete tid s left (no_cycle s') acc fresh c = record {
    left' = tid ∷ c.left';
    accounts = record {
      topological = (c.reached, c.accounts.topological);
      seen = λ a. ground (
        arith,
        c.accounts.seen a,
        c.same_stack a,
        contains-discard tid a s'.rec_stack,
        contains-add tid a s.rec_stack,
      );
    };
    reached = λ a h. ground arith;
    grows = λ a h. ground (arith, c.grows a h);
    same_stack = λ a. ground (
      arith,
      contains-discard tid a s'.rec_stack,
      c.same_stack a,
      contains-add tid a s.rec_stack,
      acc.seen tid,
      eq_iff tid a,
      contains_ext tid a s.rec_stack,
    );
  }
  leave-Complete tid s left exhausted acc fresh c = tt

  pub has_cycle-Complete :
      (fuel : ℕ) (tid : String) (s : Marks) (left : List String)
      → Accounts left s
      → StringSet.contains tid s.visited ≡ false
      → Complete (tid ∷ []) left s (has_cycle d fuel tid s)
  unfolding has_cycle
  has_cycle-Complete zero tid s left acc fresh = tt
  has_cycle-Complete (suc fuel) tid s left acc fresh =
      leave-Complete tid s left (search_deps (has_cycle d fuel) (entry tid d) (enter tid s)) acc
        fresh
        (search_deps-Complete (has_cycle d fuel)
          (λ dep s' left' acc' fresh'. has_cycle-Complete fuel dep s' left' acc' fresh')
          (entry tid d) (enter tid s) left (enter-Accounts tid s left acc))

  no_cycle-acyclic :
      (tid : String) (r : Search)
      → Complete (tid ∷ []) [] (record { visited = []; rec_stack = [] }) r
      → (s : Marks) → r ≡ no_cycle s
      → ¬ LeadsToCycle d tid
  unfolding StringSet.contains
  no_cycle-acyclic tid cycle c s e = cc
  no_cycle-acyclic tid (no_cycle s') c s e =
      IsTopological-acyclic d c.left' tid c.accounts.topological
        (c.reached tid (ground (arith, eq_refl tid)))
  no_cycle-acyclic tid exhausted c s e = cc

  pub has_cycle-acyclic :
      (fuel : ℕ) (tid : String) (s : Marks)
      → has_cycle d fuel tid (record { visited = []; rec_stack = [] }) ≡ no_cycle s
      → ¬ LeadsToCycle d tid
  unfolding StringSet.contains
  has_cycle-acyclic fuel tid s e =
      no_cycle-acyclic tid (has_cycle d fuel tid (record { visited = []; rec_stack = [] }))
        (has_cycle-Complete fuel tid (record { visited = []; rec_stack = [] }) []
          (record { topological = tt; seen = λ a. refl }) refl)
        s e

pub has_circular_dependency_complete :
    (m : TaskDependencyManager) (tid : String) (s : Marks)
    → has_circular_dependency m tid ≡ no_cycle s
    → ¬ LeadsToCycle m.dependencies tid
unfolding has_circular_dependency
has_circular_dependency_complete m tid s e =
    has_cycle-acyclic m.dependencies (suc (length (names m.dependencies))) tid s e
