-- ===== src/Prelude/Dict.antt =====
-- Python's `dict` with string keys, as the list of its items in insertion order.
use Prim.Native.Nat.{suc, ◌+◌}
use Prim.Native.String.{String}
use mathlib.Core.Path.{◌≡◌, refl}
use mathlib.Core.Bool.{Bool, true, false, not, ◌&&◌, ◌||◌}
use mathlib.Core.Option.{Option, none, some}
use mathlib.Core.List.{List, [], ◌∷◌, map}
use native.Mathlib.Omega.{arith}
use fish_async_task.Prelude.Tests.{if◌then◌else◌}
use fish_async_task.Prelude.Lists.{length}
use fish_async_task.Prelude.Text.{◌==◌, eq_iff}

abbrev pub Dict {ℓ} : Type ℓ → Type ℓ
Dict V = List (String × V)

module _ {ℓ} {V : Type ℓ} where
  -- `d.get(k)`
  unfoldable pub lookup : String → Dict V → Option V
  lookup k [] = none
  lookup k ((j, v) ∷ d) = if j == k then some v else lookup k d

  -- `k in d`
  unfoldable pub has : String → Dict V → Bool
  has k [] = false
  has k ((j, v) ∷ d) = (j == k) || has k d

  -- `d[k] = v`
  unfoldable pub insert : String → V → Dict V → Dict V
  insert k v [] = (k, v) ∷ []
  insert k v ((j, w) ∷ d) = if j == k then (j, v) ∷ d else (j, w) ∷ insert k v d

  -- `d.pop(k, None)`, `del d[k]`
  unfoldable pub delete : String → Dict V → Dict V
  delete k [] = []
  delete k ((j, w) ∷ d) = let rest = delete k d in if j == k then rest else (j, w) ∷ rest

  -- `d.keys()`
  abbrev pub keys : Dict V → List String
  keys d = map (λ e. e.0) d

  -- `not d`
  abbrev pub is_empty : Dict V → Bool
  is_empty [] = true
  is_empty (_ ∷ _) = false

  -- `d.update(e)`
  unfoldable pub update : Dict V → Dict V → Dict V
  update d [] = d
  update d ((k, v) ∷ e) = update (insert k v d) e

module _ {ℓ} {V : Type ℓ} where
  pub lookup-insert :
      (k j : String) (v : V) (d : Dict V)
      → lookup j (insert k v d) ≡ (if k == j then some v else lookup j d)
  unfolding lookup insert
  lookup-insert k j v [] = refl
  lookup-insert k j v ((i, w) ∷ d) =
      ground (arith, eq_iff k j, eq_iff i k, eq_iff i j, lookup-insert k j v d)

  pub lookup-delete :
      (k j : String) (d : Dict V) → lookup j (delete k d) ≡ (if k == j then none else lookup j d)
  unfolding lookup delete
  lookup-delete k j [] = ground arith
  lookup-delete k j ((i, w) ∷ d) =
      ground (arith, eq_iff k j, eq_iff i k, eq_iff i j, lookup-delete k j d)

  pub has-insert :
      (k j : String) (v : V) (d : Dict V) → has j (insert k v d) ≡ ((k == j) || has j d)
  unfolding has insert
  has-insert k j v [] = refl
  has-insert k j v ((i, w) ∷ d) =
      ground (arith, eq_iff k j, eq_iff i k, eq_iff i j, has-insert k j v d)

  pub has-delete : (k j : String) (d : Dict V) → has j (delete k d) ≡ (not (k == j) && has j d)
  unfolding has delete
  has-delete k j [] = ground arith
  has-delete k j ((i, w) ∷ d) = ground (arith, eq_iff k j, eq_iff i k, eq_iff i j, has-delete k j d)

  -- A key is present exactly when it is found.
  pub has-eq_lookup :
      (k : String) (d : Dict V) → has k d ≡ elim (lookup k d) [ none ↦ false | some v ↦ true ]
  unfolding has lookup
  has-eq_lookup k [] = refl
  has-eq_lookup k ((j, v) ∷ d) = ground (arith, has-eq_lookup k d)

  -- Assignment adds an item exactly when the key is new.
  pub length-insert :
      (k : String) (v : V) (d : Dict V)
      → length (insert k v d) ≡ (if has k d then length d else suc (length d))
  unfolding has insert
  length-insert k v [] = refl
  length-insert k v ((j, w) ∷ d) = ground (arith, length-insert k v d)

  -- The keys of a dict are distinct.
  abbrev pub HasUniqueKeys : Dict V → Type 0
  HasUniqueKeys [] = Unit
  HasUniqueKeys ((k, v) ∷ d) = (has k d ≡ false) × HasUniqueKeys d

  pub insert-HasUniqueKeys :
      (k : String) (v : V) (d : Dict V) → HasUniqueKeys d → HasUniqueKeys (insert k v d)
  unfolding insert has
  insert-HasUniqueKeys k v [] u = (refl, tt)
  insert-HasUniqueKeys k v ((j, w) ∷ d) u =
      ground (arith, insert-HasUniqueKeys k v d, has-insert k j v d, eq_iff j k, eq_iff k j)

  pub delete-HasUniqueKeys :
      (k : String) (d : Dict V) → HasUniqueKeys d → HasUniqueKeys (delete k d)
  unfolding delete
  delete-HasUniqueKeys k [] u = tt
  delete-HasUniqueKeys k ((j, w) ∷ d) u = ground (arith, delete-HasUniqueKeys k d, has-delete k j d)

  pub delete_missing : (k : String) (d : Dict V) → has k d ≡ false → delete k d ≡ d
  unfolding delete has
  delete_missing k [] h = refl
  delete_missing k ((j, w) ∷ d) h = ground (arith, delete_missing k d)

  pub has_ext : (k j : String) (d : Dict V) → k ≡ j → has k d ≡ has j d
  has_ext k j d e = λ i. has (e i) d

  pub lookup_ext : (k j : String) (d : Dict V) → k ≡ j → lookup k d ≡ lookup j d
  lookup_ext k j d e = λ i. lookup (e i) d

  -- Deletion takes one item away exactly when the key is there.
  pub length-delete :
      (k : String) (d : Dict V)
      → HasUniqueKeys d
      → length (delete k d) + (if has k d then 1 else 0) ≡ length d
  unfolding delete has
  length-delete k [] u = omega arith
  length-delete k ((j, w) ∷ d) u =
      ground (arith, length-delete k d, eq_iff j k, has_ext j k d, delete_missing k d)

  pub update-HasUniqueKeys : (d e : Dict V) → HasUniqueKeys d → HasUniqueKeys (update d e)
  unfolding update
  update-HasUniqueKeys d [] u = u
  update-HasUniqueKeys d ((k, v) ∷ e) u =
      update-HasUniqueKeys (insert k v d) e (insert-HasUniqueKeys k v d u)
