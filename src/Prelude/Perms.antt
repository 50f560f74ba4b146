-- ===== src/Prelude/Perms.antt =====
-- What a rearrangement of a list keeps, measured by native numbers and Boolean tests.
use mathlib.Core.Path.{◌≡◌, refl, ◌∙◌, ap}
use mathlib.Core.Bool.{Bool, true}
use mathlib.Core.List.{List, [], ◌∷◌, map, Perm, Permᴰ}
use mathlib.Core.Logic.{∥∥₁_elim, ∥∥₁_map}
use native.Mathlib.Nat.{ℕ_set}
use native.Mathlib.Omega.{arith}
use fish_async_task.Prelude.Lists.{length, count, all, any}

Bool-set : IsSet Bool
Bool-set = hlevel

module _ {ℓ} {A : Type ℓ} where
  count-permᴰ : (p : A → Bool) {xs ys : List A} → Permᴰ xs ys → count p xs ≡ count p ys
  count-permᴰ p Permᴰ.nil = refl
  count-permᴰ p (Permᴰ.cons e r) = ground (arith, count-permᴰ p r)
  count-permᴰ p (Permᴰ.swap e f) = ground arith
  count-permᴰ p (Permᴰ.trans r s) = count-permᴰ p r ∙ count-permᴰ p s

  pub count-perm : (p : A → Bool) (xs ys : List A) → Perm xs ys → count p xs ≡ count p ys
  count-perm p xs ys r = ∥∥₁_elim r (ℕ_set _ _) (λ q. count-permᴰ p q)

  pub count_all : (xs : List A) → count (λ _. true) xs ≡ length xs
  count_all [] = refl
  count_all (x ∷ xs) = ground (arith, count_all xs)

  pub length-perm : (xs ys : List A) → Perm xs ys → length xs ≡ length ys
  length-perm xs ys r = ground (arith, count_all xs, count_all ys, count-perm (λ _. true) xs ys r)

  all-permᴰ : (p : A → Bool) {xs ys : List A} → Permᴰ xs ys → all p xs ≡ all p ys
  all-permᴰ p Permᴰ.nil = refl
  all-permᴰ p (Permᴰ.cons e r) = ground (arith, all-permᴰ p r)
  all-permᴰ p (Permᴰ.swap e f) = ground arith
  all-permᴰ p (Permᴰ.trans r s) = all-permᴰ p r ∙ all-permᴰ p s

  pub all-perm : (p : A → Bool) (xs ys : List A) → Perm xs ys → all p xs ≡ all p ys
  all-perm p xs ys r = ∥∥₁_elim r (Bool-set _ _) (λ q. all-permᴰ p q)

  any-permᴰ : (p : A → Bool) {xs ys : List A} → Permᴰ xs ys → any p xs ≡ any p ys
  any-permᴰ p Permᴰ.nil = refl
  any-permᴰ p (Permᴰ.cons e r) = ground (arith, any-permᴰ p r)
  any-permᴰ p (Permᴰ.swap e f) = ground arith
  any-permᴰ p (Permᴰ.trans r s) = any-permᴰ p r ∙ any-permᴰ p s

  pub any-perm : (p : A → Bool) (xs ys : List A) → Perm xs ys → any p xs ≡ any p ys
  any-perm p xs ys r = ∥∥₁_elim r (Bool-set _ _) (λ q. any-permᴰ p q)

module _ {ℓ ℓ'} {A : Type ℓ} {B : Type ℓ'} where
  map-permᴰ : (f : A → B) {xs ys : List A} → Permᴰ xs ys → Permᴰ (map f xs) (map f ys)
  map-permᴰ f Permᴰ.nil = Permᴰ.nil
  map-permᴰ f (Permᴰ.cons e r) = Permᴰ.cons (ap f e) (map-permᴰ f r)
  map-permᴰ f (Permᴰ.swap e g) = Permᴰ.swap (ap f e) (ap f g)
  map-permᴰ f (Permᴰ.trans r s) = Permᴰ.trans (map-permᴰ f r) (map-permᴰ f s)

  pub map-perm : (f : A → B) (xs ys : List A) → Perm xs ys → Perm (map f xs) (map f ys)
  map-perm f xs ys r = ∥∥₁_map {B = Permᴰ (map f xs) (map f ys)} r (map-permᴰ f)
