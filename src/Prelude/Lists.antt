-- ===== src/Prelude/Lists.antt =====
-- Lists measured by native numbers, and searched and filtered by Boolean tests.
use Prim.Native.Nat.{ℕ, zero, suc, ◌+◌, ◌-◌, ◌≤◌, min}
use mathlib.Core.Path.{◌≡◌, refl, ap, sym, ◌∙◌}
use mathlib.Core.Bool.{Bool, true, false, ◌&&◌, ◌||◌}
use mathlib.Core.Option.{Option, none, some}
use mathlib.Core.List.{List, [], ◌∷◌, ◌++◌, map}
use native.Mathlib.Omega.{arith}
use fish_async_task.Prelude.Tests.{if◌then◌else◌, eqb, ltb}

module _ {ℓ} {A : Type ℓ} where
  abbrev pub length : List A → ℕ
  length [] = 0
  length (x ∷ xs) = suc (length xs)

  abbrev pub get_elem? : List A → ℕ → Option A
  get_elem? [] i = none
  get_elem? (x ∷ xs) zero = some x
  get_elem? (x ∷ xs) (suc i) = get_elem? xs i

  -- A write out of bounds changes nothing.
  abbrev pub set : List A → ℕ → A → List A
  set [] i v = []
  set (x ∷ xs) zero v = v ∷ xs
  set (x ∷ xs) (suc i) v = x ∷ set xs i v

  abbrev pub take : ℕ → List A → List A
  take zero xs = []
  take (suc n) [] = []
  take (suc n) (x ∷ xs) = x ∷ take n xs

  abbrev pub drop : ℕ → List A → List A
  drop zero xs = xs
  drop (suc n) [] = []
  drop (suc n) (x ∷ xs) = drop n xs

  abbrev pub replicate : ℕ → A → List A
  replicate zero a = []
  replicate (suc n) a = a ∷ replicate n a

  -- `any(p(x) for x in xs)`
  abbrev pub any : (A → Bool) → List A → Bool
  any p [] = false
  any p (x ∷ xs) = p x || any p xs

  -- `all(p(x) for x in xs)`
  abbrev pub all : (A → Bool) → List A → Bool
  all p [] = true
  all p (x ∷ xs) = p x && all p xs

  -- `[x for x in xs if p(x)]`
  abbrev pub select : (A → Bool) → List A → List A
  select p [] = []
  select p (x ∷ xs) = if p x then x ∷ select p xs else select p xs

  -- The number of elements that pass the test.
  abbrev pub count : (A → Bool) → List A → ℕ
  count p [] = 0
  count p (x ∷ xs) = if p x then suc (count p xs) else count p xs

  abbrev pub All {κ} : (A → Type κ) → List A → Type κ
  All P [] = Unit
  All P (x ∷ xs) = P x × All P xs

module _ {ℓ} {A : Type ℓ} where
  pub length-append : (xs ys : List A) → length (xs ++ ys) ≡ length xs + length ys
  length-append [] ys = omega arith
  length-append (x ∷ xs) ys = omega (arith, length-append xs ys)

  pub all-drop : (p : A → Bool) (n : ℕ) (l : List A) → all p l ≡ true → all p (drop n l) ≡ true
  all-drop p zero l h = h
  all-drop p (suc n) [] h = refl
  all-drop p (suc n) (x ∷ l) h = all-drop p n l (ground arith)

  pub length-take : (n : ℕ) (xs : List A) → length (take n xs) ≡ min n (length xs)
  length-take zero xs = omega arith
  length-take (suc n) [] = omega arith
  length-take (suc n) (x ∷ xs) = omega (arith, length-take n xs)

  pub length-drop : (n : ℕ) (xs : List A) → length (drop n xs) ≡ length xs - n
  length-drop zero xs = omega arith
  length-drop (suc n) [] = omega arith
  length-drop (suc n) (x ∷ xs) = omega (arith, length-drop n xs)

  pub length-replicate : (n : ℕ) (a : A) → length (replicate n a) ≡ n
  length-replicate zero a = refl
  length-replicate (suc n) a = ap suc (length-replicate n a)

  pub length-set : (xs : List A) (i : ℕ) (v : A) → length (set xs i v) ≡ length xs
  length-set [] i v = refl
  length-set (x ∷ xs) zero v = refl
  length-set (x ∷ xs) (suc i) v = ap suc (length-set xs i v)

  pub length-select_le : (p : A → Bool) (xs : List A) → length (select p xs) ≤ length xs
  length-select_le p [] = omega arith
  length-select_le p (x ∷ xs) = ground (arith, length-select_le p xs)

  pub any-append : (p : A → Bool) (xs ys : List A) → any p (xs ++ ys) ≡ (any p xs || any p ys)
  any-append p [] ys = refl
  any-append p (x ∷ xs) ys = ground (arith, any-append p xs ys)

  -- What is read after a write: nothing changes elsewhere, nor when the place is out of bounds.
  pub get_elem?-set :
      (xs : List A) (i j : ℕ) (v : A)
      → get_elem? (set xs i v) j ≡ (if eqb i j && ltb i (length xs) then some v else get_elem? xs j)
  get_elem?-set [] i j v = ground arith
  get_elem?-set (x ∷ xs) zero zero v = ground arith
  get_elem?-set (x ∷ xs) zero (suc j) v = ground arith
  get_elem?-set (x ∷ xs) (suc i) zero v = ground arith
  get_elem?-set (x ∷ xs) (suc i) (suc j) v = get_elem?-set xs i j v ∙ ground arith

  pub get_elem?_in_range :
      (xs : List A) (i : ℕ) (v : A) → get_elem? xs i ≡ some v → ltb i (length xs) ≡ true
  get_elem?_in_range [] i v h = ground arith
  get_elem?_in_range (x ∷ xs) zero v h = ground arith
  get_elem?_in_range (x ∷ xs) (suc i) v h = ground (arith, get_elem?_in_range xs i v h)

  -- A write takes the old element out of a count and puts the new one in.
  pub count-set :
      (p : A → Bool) (xs : List A) (i : ℕ) (old new : A)
      → get_elem? xs i ≡ some old
      → count p (set xs i new) + (if p old then 1 else 0) ≡ count p xs + (if p new then 1 else 0)
  count-set p [] i old new h = ground arith
  count-set p (x ∷ xs) zero old new h = ground arith
  count-set p (x ∷ xs) (suc i) old new h = ground (arith, count-set p xs i old new h)

  pub count-zero :
      (p : A → Bool) (xs : List A) (i : ℕ) (x : A)
      → get_elem? xs i ≡ some x
      → count p xs ≡ 0
      → p x ≡ false
  count-zero p [] i x h e = ground arith
  count-zero p (y ∷ xs) zero x h e = ground arith
  count-zero p (y ∷ xs) (suc i) x h e = ground (arith, count-zero p xs i x h)

  -- An element counted once stands in one place.
  pub count-one :
      (p : A → Bool) (xs : List A) (i j : ℕ) (x y : A)
      → count p xs ≡ 1
      → get_elem? xs i ≡ some x
      → get_elem? xs j ≡ some y
      → p x ≡ true
      → p y ≡ true
      → i ≡ j
  count-one p [] i j x y e h k a b = ground arith
  count-one p (z ∷ xs) zero zero x y e h k a b = refl
  count-one p (z ∷ xs) zero (suc j) x y e h k a b = ground (arith, count-zero p xs j y k)
  count-one p (z ∷ xs) (suc i) zero x y e h k a b = ground (arith, count-zero p xs i x h)
  count-one p (z ∷ xs) (suc i) (suc j) x y e h k a b =
      ap suc (count-one p xs i j x y (ground (arith, count-zero p xs i x h)) h k a b)

  pub count-replicate : (p : A → Bool) (n : ℕ) (a : A) → p a ≡ false → count p (replicate n a) ≡ 0
  count-replicate p zero a h = refl
  count-replicate p (suc n) a h = ground (arith, count-replicate p n a h)

module _ {ℓ ℓ'} {A : Type ℓ} {B : Type ℓ'} where
  pub map-take : (f : A → B) (n : ℕ) (xs : List A) → map f (take n xs) ≡ take n (map f xs)
  map-take f zero xs = refl
  map-take f (suc n) [] = refl
  map-take f (suc n) (x ∷ xs) = ap (λ ys. f x ∷ ys) (map-take f n xs)

module _ {ℓ} {A : Type ℓ} where
  pub drop_beyond : (k : ℕ) (xs ys : List A) → k ≤ length xs → drop k xs ++ ys ≡ drop k (xs ++ ys)
  drop_beyond zero xs ys h = refl
  drop_beyond (suc k) [] ys h = absurd (omega arith)
  drop_beyond (suc k) (x ∷ xs) ys h = drop_beyond k xs ys (omega arith)

  pub drop-nil : (k : ℕ) → drop {A = A} k [] ≡ []
  drop-nil zero = refl
  drop-nil (suc k) = refl

  pub drop-drop : (j k : ℕ) (xs : List A) → drop j (drop k xs) ≡ drop (k + j) xs
  drop-drop j zero xs = ap (λ n. drop n xs) (omega arith)
  drop-drop j (suc k) [] = drop-nil j ∙ sym (drop-nil (suc k + j))
  drop-drop j (suc k) (x ∷ xs) =
      let shifted : suc (k + j) ≡ suc k + j = omega arith in
      drop-drop j k xs ∙ ap (λ n. drop n (x ∷ xs)) shifted

module _ {ℓ} {A : Type ℓ} where
  pub count-drop : (p : A → Bool) (n : ℕ) (l : List A) → count p (drop n l) ≤ count p l
  count-drop p zero l = omega arith
  count-drop p (suc n) [] = omega arith
  count-drop p (suc n) (x ∷ l) = ground (arith, count-drop p n l)

  pub uncounted : (p : A → Bool) (l : List A) → count p l ≤ 0 → any p l ≡ false
  uncounted p [] h = refl
  uncounted p (x ∷ l) h = ground (arith, uncounted p l)

  pub count-append : (p : A → Bool) (xs ys : List A) → count p (xs ++ ys) ≡ count p xs + count p ys
  count-append p [] ys = omega arith
  count-append p (x ∷ xs) ys = ground (arith, count-append p xs ys)

  pub all-append : (p : A → Bool) (xs ys : List A) → all p (xs ++ ys) ≡ (all p xs && all p ys)
  all-append p [] ys = refl
  all-append p (x ∷ xs) ys = ground (arith, all-append p xs ys)
