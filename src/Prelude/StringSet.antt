-- ===== src/Prelude/StringSet.antt =====
-- Python's `set` of strings, as a list without order: only membership is observed.
use Prim.Native.String.{String}
use mathlib.Core.Path.{◌≡◌, refl}
use mathlib.Core.Bool.{Bool, true, false, not, ◌&&◌, ◌||◌}
use mathlib.Core.List.{List, [], ◌∷◌}
use native.Mathlib.Omega.{arith}
use fish_async_task.Prelude.Tests.{if◌then◌else◌}
use fish_async_task.Prelude.Text.{◌==◌, eq_iff, eq_refl}

-- `k in s`
unfoldable pub contains : String → List String → Bool
contains k [] = false
contains k (x ∷ s) = (x == k) || contains k s

-- `s.add(k)`
unfoldable pub add : String → List String → List String
add k s = if contains k s then s else k ∷ s

-- `s.discard(k)`
unfoldable pub discard : String → List String → List String
discard k [] = []
discard k (x ∷ s) = let rest = discard k s in if x == k then rest else x ∷ rest

-- `s.issubset(t)`
unfoldable pub issubset : List String → List String → Bool
issubset [] t = true
issubset (x ∷ s) t = contains x t && issubset s t

pub contains_ext : (k j : String) (s : List String) → k ≡ j → contains k s ≡ contains j s
contains_ext k j s e = λ i. contains (e i) s

pub contains-add :
    (k j : String) (s : List String) → contains j (add k s) ≡ ((k == j) || contains j s)
unfolding add contains
contains-add k j s = ground (arith, eq_iff k j, contains_ext k j s)

pub contains-discard :
    (k j : String) (s : List String) → contains j (discard k s) ≡ (not (k == j) && contains j s)
unfolding discard contains
contains-discard k j [] = ground arith
contains-discard k j (x ∷ s) =
    ground (arith, eq_iff x k, eq_iff x j, eq_iff k j, contains-discard k j s)

-- A subset in terms of membership, in both directions.
pub issubset_sound :
    (s t : List String) (k : String)
    → issubset s t ≡ true
    → contains k s ≡ true
    → contains k t ≡ true
unfolding issubset contains
issubset_sound [] t k h m = ground arith
issubset_sound (x ∷ s) t k h m =
    ground (arith, issubset_sound s t k, eq_iff x k, contains_ext x k t)

pub issubset_complete :
    (s t : List String)
    → ((k : String) → contains k s ≡ true → contains k t ≡ true)
    → issubset s t ≡ true
unfolding issubset contains
issubset_complete [] t h = refl
issubset_complete (x ∷ s) t h =
    ground (arith, h x, eq_refl x, issubset_complete s t (λ k m. h k (ground arith)))
