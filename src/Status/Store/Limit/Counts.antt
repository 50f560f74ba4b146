-- ===== src/Status/Store/Limit/Counts.antt =====
-- Lists of distinct names, and how many of them a part of the list names.
use fish_async_task.Prelude.{
  ℕ, zero, suc, ◌-◌, ◌≤◌, ◌<◌, ◌≡◌, refl, ◌∙◌, sym, ap, String, ◌==◌, eq_iff, eq_refl, Bool, true,
  false, not, ◌||◌, List, [], ◌∷◌, Perm, arith, length, take, select, count, count-perm, any,
  any-perm,
}
use fish_async_task.Prelude.Dict
use fish_async_task.Prelude.Dict.{Dict}
use fish_async_task.Prelude.StringSet.{contains, contains_ext}

abbrev pub Distinct : List String → Type 0
Distinct [] = Unit
Distinct (k ∷ ks) = (contains k ks ≡ false) × Distinct ks

count_absent :
    (x : String) (keep xs : List String)
    → contains x xs ≡ false
    → count (λ k. not (contains k (x ∷ keep))) xs ≡ count (λ k. not (contains k keep)) xs
unfolding contains
count_absent x keep [] h = refl
count_absent x keep (y ∷ xs) h = ground (arith, count_absent x keep xs, eq_iff x y, eq_iff y x)

-- Of distinct names, all but `n` are not among the first `n`.
pub count-not_taken :
    (n : ℕ) (l : List String)
    → Distinct l
    → count (λ k. not (contains k (take n l))) l ≡ length l - n
unfolding contains
count-not_taken zero [] h = refl
count-not_taken zero (x ∷ l) h = ground (arith, count-not_taken zero l h.1)
count-not_taken (suc n) [] h = omega arith
count-not_taken (suc n) (x ∷ l) h =
    ground (arith, eq_refl x, count_absent x (take n l) l h.0, count-not_taken n l h.1)

-- Distinct names are counted at most once, and conversely.
count-named : (k : String) (l : List String) → contains k l ≡ false → count (λ j. j == k) l ≡ 0
unfolding contains
count-named k [] h = refl
count-named k (x ∷ l) h = ground (arith, count-named k l)

Distinct-count : (k : String) (l : List String) → Distinct l → count (λ j. j == k) l ≤ 1
Distinct-count k [] h = omega arith
Distinct-count k (x ∷ l) h =
    ground (arith, eq_iff x k, contains_ext x k l, count-named k l, Distinct-count k l h.1)

contained_counted : (k : String) (l : List String) → contains k l ≡ true → 0 < count (λ j. j == k) l
unfolding contains
contained_counted k [] h = absurd (ground arith)
contained_counted k (x ∷ l) h = ground (arith, contained_counted k l)

counted-Distinct : (l : List String) → ((k : String) → count (λ j. j == k) l ≤ 1) → Distinct l
counted-Distinct [] h = tt
counted-Distinct (x ∷ l) h = (
  ground (arith, h x, contained_counted x l, eq_refl x),
  counted-Distinct l (λ k. ground (arith, h k)),
)

pub Distinct-perm : (xs ys : List String) → Perm xs ys → Distinct ys → Distinct xs
Distinct-perm xs ys p h =
    counted-Distinct xs
      (λ k. omega (arith, count-perm (λ j. j == k) xs ys p, Distinct-count k ys h))

module _ {V : Type 0} where
  pub length-keys : (d : Dict V) → length (Dict.keys d) ≡ length d
  length-keys [] = refl
  length-keys (e ∷ d) = omega (arith, length-keys d)

  pub contained-keys : (k : String) (d : Dict V) → contains k (Dict.keys d) ≡ Dict.has k d
  unfolding contains Dict.has
  contained-keys k [] = refl
  contained-keys k ((j, v) ∷ d) = ap (λ b. (j == k) || b) (contained-keys k d)

  pub keys-Distinct : (d : Dict V) → Dict.HasUniqueKeys d → Distinct (Dict.keys d)
  keys-Distinct [] u = tt
  keys-Distinct ((k, v) ∷ d) u = (contained-keys k d ∙ u.0, keys-Distinct d u.1)

pub contained-take :
    (n : ℕ) (k : String) (l : List String) → contains k (take n l) ≡ true → contains k l ≡ true
unfolding contains
contained-take zero k l h = absurd (ground arith)
contained-take (suc n) k [] h = h
contained-take (suc n) k (x ∷ l) h = ground (arith, contained-take n k l)

pub take-Distinct : (n : ℕ) (l : List String) → Distinct l → Distinct (take n l)
take-Distinct zero l h = tt
take-Distinct (suc n) [] h = tt
take-Distinct (suc n) (x ∷ l) h = (ground (arith, h.0, contained-take n x l), take-Distinct n l h.1)

pub contains-perm : (k : String) (xs ys : List String) → Perm xs ys → contains k xs ≡ contains k ys
unfolding contains
contains-perm k xs ys p = sym (as_any xs) ∙ any-perm (λ x. x == k) xs ys p ∙ as_any ys
  where
    as_any : (l : List String) → any (λ x. x == k) l ≡ contains k l
    as_any [] = refl
    as_any (x ∷ l) = ap (λ b. (x == k) || b) (as_any l)

pub count-select : {A : Type 0} (p : A → Bool) (l : List A) → length (select p l) ≡ count p l
count-select p [] = refl
count-select p (x ∷ l) = ground (arith, count-select p l)

pub select-Distinct : (p : String → Bool) (l : List String) → Distinct l → Distinct (select p l)
unfolding contains
select-Distinct p [] h = tt
select-Distinct p (x ∷ l) h = ground (arith, absent p x l h.0, select-Distinct p l h.1)
  where
    absent :
        (p : String → Bool) (x : String) (l : List String)
        → contains x l ≡ false
        → contains x (select p l) ≡ false
    absent p x [] h = refl
    absent p x (y ∷ l) h = ground (arith, absent p x l)
