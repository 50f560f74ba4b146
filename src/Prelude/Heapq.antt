-- ===== src/Prelude/Heapq.antt =====
-- Python's `heapq` module, which is not part of the repository: its documented contract, and an
-- instance that meets it. `lt` is the comparison `<` of the items.
use Prim.Native.Nat.{ℕ, zero, suc}
use mathlib.Core.Path.{◌≡◌, refl}
use mathlib.Core.Bool.{Bool, true, false, not}
use mathlib.Core.Option.{Option, none, some}
use mathlib.Core.List.{List, [], ◌∷◌, Perm}
use mathlib.Core.List.Perm
use native.Mathlib.Omega.{arith}
use fish_async_task.Prelude.Tests.{if◌then◌else◌}
use fish_async_task.Prelude.Lists.{all, all-drop, take, drop}
use fish_async_task.Prelude.Perms.{all-perm}

-- `heappop` fails on an empty heap only, and removes the item in front, which none is below.
pub record Heapq {A : Type 0} (lt : A → A → Bool) : Type 1 where
  pub IsHeap : List A → Type 0
  pub heappush : A → List A → List A
  pub heappop : List A → Option (A × List A)
  pub heapify : List A → List A
  pub nil-IsHeap : IsHeap []
  pub heappush-IsHeap : (a : A) (h : List A) → IsHeap h → IsHeap (heappush a h)
  pub heappush-perm : (a : A) (h : List A) → Perm (heappush a h) (a ∷ h)
  pub heappop-nil : heappop [] ≡ none
  pub heappop-cons :
      (a : A) (h : List A)
      → IsHeap (a ∷ h)
      → (r : List A) × (heappop (a ∷ h) ≡ some (a, r)) × Perm h r × IsHeap r
  pub heapify-IsHeap : (h : List A) → IsHeap (heapify h)
  pub heapify-perm : (h : List A) → Perm (heapify h) h
  pub head_least : (a : A) (h : List A) → IsHeap (a ∷ h) → all (λ b. not (lt b a)) h ≡ true

-- A comparison with ties, as Python's `<` on the items of a heap.
pub record WeakOrder {A : Type 0} (lt : A → A → Bool) : Type 0 where
  pub asymm : (a b : A) → lt a b ≡ true → lt b a ≡ false
  pub trans : (a b c : A) → lt b a ≡ false → lt c b ≡ false → lt c a ≡ false

module _ {A : Type 0} (lt : A → A → Bool) where
  -- No item stands behind one that is greater.
  abbrev pub IsOrdered : List A → Type 0
  IsOrdered [] = Unit
  IsOrdered (a ∷ h) = (all (λ b. not (lt b a)) h ≡ true) × IsOrdered h

  -- No item of the second list is below one of the first.
  abbrev pub all_before : List A → List A → Bool
  all_before xs ys = all (λ a. all (λ b. not (lt b a)) ys) xs

  pub ordered_split : (n : ℕ) (l : List A) → IsOrdered l → all_before (take n l) (drop n l) ≡ true
  ordered_split zero l o = refl
  ordered_split (suc n) [] o = refl
  ordered_split (suc n) (a ∷ l) o =
      ground (arith, all-drop (λ b. not (lt b a)) n l o.0, ordered_split n l o.1)

  abbrev pub insert_ordered : A → List A → List A
  insert_ordered a [] = a ∷ []
  insert_ordered a (b ∷ h) = if lt b a then b ∷ insert_ordered a h else a ∷ b ∷ h

  abbrev pub sort : List A → List A
  sort [] = []
  sort (a ∷ h) = insert_ordered a (sort h)

  abbrev pub pop_front : List A → Option (A × List A)
  pop_front [] = none
  pop_front (a ∷ h) = some (a, h)

  pub insert_ordered-perm : (a : A) (h : List A) → Perm (insert_ordered a h) (a ∷ h)
  insert_ordered-perm a [] = Perm.rfl
  insert_ordered-perm a (b ∷ h) =
      let deeper = Perm.trans (Perm.cons b (insert_ordered-perm a h)) (Perm.swap a b h) in
      elim (lt b a) as (λ t. Perm (if t then b ∷ insert_ordered a h else a ∷ b ∷ h) (a ∷ b ∷ h)) [
        | true ↦ deeper
        | false ↦ Perm.rfl
      ]

  pub sort-perm : (h : List A) → Perm (sort h) h
  sort-perm [] = Perm.rfl
  sort-perm (a ∷ h) = Perm.trans (insert_ordered-perm a (sort h)) (Perm.cons a (sort-perm h))

  module _ (order : WeakOrder lt) where
    open order use {asymm, trans}

    all_above :
        (a b : A) (h : List A)
        → lt b a ≡ false
        → all (λ c. not (lt c b)) h ≡ true
        → all (λ c. not (lt c a)) h ≡ true
    all_above a b [] e m = refl
    all_above a b (c ∷ h) e m = ground (arith, trans a b c, all_above a b h)

    pub insert_ordered-IsOrdered :
        (a : A) (h : List A) → IsOrdered h → IsOrdered (insert_ordered a h)
    insert_ordered-IsOrdered a [] s = (refl, tt)
    insert_ordered-IsOrdered a (b ∷ h) s = ground (
      arith,
      insert_ordered-IsOrdered a h s.1,
      all-perm (λ c. not (lt c b)) (insert_ordered a h) (a ∷ h) (insert_ordered-perm a h),
      asymm b a,
      all_above a b h,
    )

    pub sort-IsOrdered : (h : List A) → IsOrdered (sort h)
    sort-IsOrdered [] = tt
    sort-IsOrdered (a ∷ h) = insert_ordered-IsOrdered a (sort h) (sort-IsOrdered h)

-- Sorted lists meet the contract.
abbrev pub ordered_heapq : {A : Type 0} (lt : A → A → Bool) → WeakOrder lt → Heapq lt
ordered_heapq lt order = record {
  IsHeap = IsOrdered lt;
  heappush = insert_ordered lt;
  heappop = pop_front lt;
  heapify = sort lt;
  nil-IsHeap = tt;
  heappush-IsHeap = insert_ordered-IsOrdered lt order;
  heappush-perm = insert_ordered-perm lt;
  heappop-nil = refl;
  heappop-cons = λ a h s. (h, refl, Perm.rfl, s.1);
  heapify-IsHeap = sort-IsOrdered lt order;
  heapify-perm = sort-perm lt;
  head_least = λ a h s. s.0;
}
