-- ===== src/Status/Store/View.antt =====
-- The sharded store seen as one map from task ids to statuses.
use fish_async_task.Prelude.{
  ℕ, zero, suc, ◌<◌, ◌≡◌, refl, ◌∙◌, sym, ap, subst, String, Bool, true, false, ◌==◌, none, some,
  List, [], ◌∷◌, arith, if◌then◌else◌, length, get_elem?, set, eq_iff, length-set, eqb,
}
use fish_async_task.Prelude.Int.{mod_int-lt}
use fish_async_task.Prelude.Dict
use fish_async_task.Prelude.Dict.{Dict, lookup-insert, lookup-delete, has-insert, has-delete}
use fish_async_task.Status.{TaskStatusDict}
use fish_async_task.Status.Store.{
  Store, Runtime, or_empty, shard, shard_index, get_status, update_status, remove_status,
}

get_elem?-set :
    {A : Type 0} (xs : List (List A)) (i j : ℕ) (v : List A)
    → i < length xs
    → or_empty (get_elem? (set xs i v) j) ≡ (if eqb i j then v else or_empty (get_elem? xs j))
get_elem?-set [] i j v h = absurd (omega arith)
get_elem?-set (x ∷ xs) zero zero v h = refl
get_elem?-set (x ∷ xs) zero (suc j) v h = ground arith
get_elem?-set (x ∷ xs) (suc i) zero v h = ground arith
get_elem?-set (x ∷ xs) (suc i) (suc j) v h = get_elem?-set xs i j v (omega arith) ∙ ground arith

pub index_ext :
    (py : Runtime) (n : ℕ) (k j : String)
    → k ≡ j
    → shard_index py.hash n k ≡ shard_index py.hash n j
index_ext py n k j e = λ i. shard_index py.hash n (e i)

pub shard_index-lt : (py : Runtime) (n : ℕ) (k : String) → 0 < n → shard_index py.hash n k < n
unfolding shard_index
shard_index-lt py n k h = mod_int-lt (py.hash k) n h

module _ {R : Type 0} (py : Runtime) where
  -- Every shard is there, and holds tasks of its own index alone, each once.
  pub record IsValid (s : Store R) : Type 0 where
    pub positive : 0 < s.shard_count
    pub shard_lengths : length s.shards ≡ s.shard_count
    pub heap_lengths : length s.expiry_heaps ≡ s.shard_count
    pub placed :
        (i : ℕ) (k : String)
        → Dict.has k (shard s i) ≡ true
        → shard_index py.hash s.shard_count k ≡ i
    pub unique : (i : ℕ) → Dict.HasUniqueKeys (shard s i)

  pub index_in_range :
      (s : Store R) (k : String) → IsValid s → shard_index py.hash s.shard_count k < length s.shards
  index_in_range s k v =
      omega (arith, shard_index-lt py s.shard_count k v.positive, v.shard_lengths)

  pub shard-update :
      (s : Store R) (k : String) (st : TaskStatusDict R) (j : ℕ)
      → IsValid s
      → shard (update_status py s k st) j ≡ (
          if eqb (shard_index py.hash s.shard_count k) j
          then Dict.insert k st (shard s (shard_index py.hash s.shard_count k))
          else shard s j)
  unfolding update_status
  shard-update s k st j v =
      get_elem?-set s.shards (shard_index py.hash s.shard_count k) j _ (index_in_range s k v)

  read_index_update :
      (s : Store R) (k : String) (st : TaskStatusDict R) (j : String)
      → shard
          (update_status py s k st)
          (shard_index py.hash (update_status py s k st).shard_count j)
        ≡ shard (update_status py s k st) (shard_index py.hash s.shard_count j)
  unfolding update_status
  read_index_update s k st j = refl

  -- What is read after a status was stored in a valid store: the new one for its task, and for
  -- every other task what was read before.
  pub get_status-update_status :
      (s : Store R) (k j : String) (st : TaskStatusDict R)
      → IsValid s
      → get_status py (update_status py s k st) j ≡ (if k == j then some st else get_status py s j)
  unfolding get_status
  get_status-update_status s k j st v =
      let i = shard_index py.hash s.shard_count k in
      ap (Dict.lookup j)
        (read_index_update s k st j ∙ shard-update s k st (shard_index py.hash s.shard_count j) v)
      ∙ ground (arith, lookup-insert k j st (shard s i), index_ext py s.shard_count k j, eq_iff k j)

  shard-remove :
      (s : Store R) (k : String) (j : ℕ)
      → IsValid s
      → shard (remove_status py s k) j ≡ (
          if eqb (shard_index py.hash s.shard_count k) j
          then Dict.delete k (shard s (shard_index py.hash s.shard_count k))
          else shard s j)
  unfolding remove_status
  shard-remove s k j v =
      get_elem?-set s.shards (shard_index py.hash s.shard_count k) j _ (index_in_range s k v)

  read_index_remove :
      (s : Store R) (k j : String)
      → shard (remove_status py s k) (shard_index py.hash (remove_status py s k).shard_count j)
        ≡ shard (remove_status py s k) (shard_index py.hash s.shard_count j)
  unfolding remove_status
  read_index_remove s k j = refl

  -- After a removal from a valid store nothing is read for the task, and what was read before for
  -- every other one.
  pub get_status-remove_status :
      (s : Store R) (k j : String)
      → IsValid s
      → get_status py (remove_status py s k) j ≡ (if k == j then none else get_status py s j)
  unfolding get_status
  get_status-remove_status s k j v =
      let i = shard_index py.hash s.shard_count k in
      ap (Dict.lookup j)
        (read_index_remove s k j ∙ shard-remove s k (shard_index py.hash s.shard_count j) v)
      ∙ ground (arith, lookup-delete k j (shard s i), index_ext py s.shard_count k j, eq_iff k j)

  has-shard-update :
      (s : Store R) (k : String) (st : TaskStatusDict R) (i : ℕ) (j : String)
      → IsValid s
      → Dict.has j (shard (update_status py s k st) i) ≡ true
      → shard_index py.hash s.shard_count j ≡ i
  has-shard-update s k st i j v h = ground (
    arith,
    ap (Dict.has j) (shard-update s k st i v),
    has-insert k j st (shard s (shard_index py.hash s.shard_count k)),
    v.placed i j,
    v.placed (shard_index py.hash s.shard_count k) j,
    index_ext py s.shard_count k j,
    eq_iff k j,
  )

  choose-HasUniqueKeys :
      (b : Bool) (d e : Dict (TaskStatusDict R))
      → Dict.HasUniqueKeys d
      → Dict.HasUniqueKeys e
      → Dict.HasUniqueKeys (if b then d else e)
  choose-HasUniqueKeys true d e u w = u
  choose-HasUniqueKeys false d e u w = w

  -- Storing a status in a valid store keeps it valid: every shard holds tasks of its own index
  -- alone, each once.
  pub update_status-IsValid :
      (s : Store R) (k : String) (st : TaskStatusDict R)
      → IsValid s
      → IsValid (update_status py s k st)
  update_status-IsValid s k st v =
      let i = shard_index py.hash s.shard_count k in
      record {
        positive = unfold update_status in v.positive;
        shard_lengths = unfold update_status in length-set s.shards i _ ∙ v.shard_lengths;
        heap_lengths = unfold update_status in length-set s.expiry_heaps i _ ∙ v.heap_lengths;
        placed = λ a j h. unfold update_status in has-shard-update s k st a j v h;
        unique = λ a. subst Dict.HasUniqueKeys (sym (shard-update s k st a v)) (
            choose-HasUniqueKeys (eqb i a) _ _
              (Dict.insert-HasUniqueKeys k st (shard s i) (v.unique i)) (v.unique a));
      }

  has-shard-remove :
      (s : Store R) (k : String) (i : ℕ) (j : String)
      → IsValid s
      → Dict.has j (shard (remove_status py s k) i) ≡ true
      → shard_index py.hash s.shard_count j ≡ i
  has-shard-remove s k i j v h = ground (
    arith,
    ap (Dict.has j) (shard-remove s k i v),
    has-delete k j (shard s (shard_index py.hash s.shard_count k)),
    v.placed i j,
    v.placed (shard_index py.hash s.shard_count k) j,
  )

  pub remove_status-IsValid :
      (s : Store R) (k : String) → IsValid s → IsValid (remove_status py s k)
  remove_status-IsValid s k v =
      let i = shard_index py.hash s.shard_count k in
      record {
        positive = unfold remove_status in v.positive;
        shard_lengths = unfold remove_status in length-set s.shards i _ ∙ v.shard_lengths;
        heap_lengths = unfold remove_status in v.heap_lengths;
        placed = λ a j h. unfold remove_status in has-shard-remove s k a j v h;
        unique = λ a. subst Dict.HasUniqueKeys (sym (shard-remove s k a v)) (
            choose-HasUniqueKeys (eqb i a) _ _
              (Dict.delete-HasUniqueKeys k (shard s i) (v.unique i)) (v.unique a));
      }
