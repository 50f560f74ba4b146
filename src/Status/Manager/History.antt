-- ===== src/Status/Manager/History.antt =====
-- What is read after any sequence of updates.
use fish_async_task.Prelude.{
  ◌≡◌, refl, ◌∙◌, sym, subst, String, Bool, Option, List, [], ◌∷◌, arith, ◌==◌, eq_iff,
  if◌then◌else◌, select, Bool-cases, inl, inr,
}
use fish_async_task.Status.{TaskStatusDict}
use fish_async_task.Status.Merge.{Update, merge_task_status, or_old}
use fish_async_task.Status.Store.{Store, Runtime, get_status}
use fish_async_task.Status.Store.View.{IsValid, get_status-update_status, update_status-IsValid}
use fish_async_task.Status.Manager.{or_unknown, read_current, write_merged, do_update_task_status}

abbrev pub concerns : {R : Type 0} → String → Update R → Bool
concerns k u = u.task_id == k

-- The updates merged one after the other.
abbrev pub merge_all : {R : Type 0} → TaskStatusDict R → List (Update R) → TaskStatusDict R
merge_all current [] = current
merge_all current (u ∷ us) = merge_all (merge_task_status current u) us

module _ {R : Type 0} (py : Runtime) where
  -- The updates made one after the other.
  abbrev pub update_all : Store R → List (Update R) → Store R
  update_all s [] = s
  update_all s (u ∷ us) = update_all (do_update_task_status py s u) us

  pub read-do_update_task_status :
      (s : Store R) (u : Update R) (k : String)
      → IsValid py s
      → read_current py (do_update_task_status py s u) k
        ≡ (if concerns k u then merge_task_status (read_current py s k) u else read_current py s k)
  unfolding read_current do_update_task_status write_merged
  read-do_update_task_status s u k v = ground (
    arith,
    eq_iff u.task_id k,
    get_status-update_status py s u.task_id k
        (merge_task_status (or_unknown (get_status py s u.task_id)) u) v,
  )

  pub do_update_task_status-IsValid :
      (s : Store R) (u : Update R) → IsValid py s → IsValid py (do_update_task_status py s u)
  unfolding do_update_task_status write_merged
  do_update_task_status-IsValid s u v =
      update_status-IsValid py s u.task_id (merge_task_status (read_current py s u.task_id) u) v

  -- After any sequence of updates of a valid store, none of which overlaps another, a task reads as
  -- what was known of it before with all updates of this task merged into it in their order, and
  -- with no other.
  pub read-update_all :
      (us : List (Update R)) (s : Store R) (k : String)
      → IsValid py s
      → read_current py (update_all s us) k
        ≡ merge_all (read_current py s k) (select (concerns k) us)
  read-update_all [] s k v = refl
  read-update_all (u ∷ us) s k v =
      read-update_all us (do_update_task_status py s u) k (do_update_task_status-IsValid s u v)
      ∙ rw (read-do_update_task_status s u k v)
          (elim (Bool-cases (concerns k u)) [ inl mine ↦ rw mine refl | inr other ↦ rw other refl ])

  -- `latest f us` is what the last update says that gives the field `f`.
  abbrev pub latest : {A : Type 0} → (Update R → Option A) → List (Update R) → Option A → Option A
  latest f [] known = known
  latest f (u ∷ us) known = latest f us (or_old (f u) known)

  -- What a field of a task reads after a sequence of updates.
  pub record Fields (before_all after_all : TaskStatusDict R) (us : List (Update R)) : Type 0 where
    pub result : after_all.result ≡ latest (λ u. u.result) us before_all.result
    pub error : after_all.error ≡ latest (λ u. u.error) us before_all.error
    pub submit_time : after_all.submit_time ≡ latest (λ u. u.submit_time) us before_all.submit_time
    pub start_time : after_all.start_time ≡ latest (λ u. u.start_time) us before_all.start_time
    pub end_time : after_all.end_time ≡ latest (λ u. u.end_time) us before_all.end_time

  merge_all-Fields : (us : List (Update R)) (st : TaskStatusDict R) → Fields st (merge_all st us) us
  unfolding merge_task_status
  merge_all-Fields [] st = record {
    result = refl;
    error = refl;
    submit_time = refl;
    start_time = refl;
    end_time = refl;
  }
  merge_all-Fields (u ∷ us) st =
      let f = merge_all-Fields us (merge_task_status st u) in
      record {
        result = f.result;
        error = f.error;
        submit_time = f.submit_time;
        start_time = f.start_time;
        end_time = f.end_time;
      }

  -- With batching switched off, after any sequence of updates of a valid store, none of which
  -- overlaps another, the result, the error and each of the three times of a task are those of the
  -- last update of the task that gives them; a field that none gives is as before.
  pub update_all-Fields :
      (us : List (Update R)) (s : Store R) (k : String)
      → IsValid py s
      → Fields (read_current py s k) (read_current py (update_all s us) k) (select (concerns k) us)
  update_all-Fields us s k v =
      subst (λ st. Fields (read_current py s k) st (select (concerns k) us))
        (sym (read-update_all us s k v))
        (merge_all-Fields (select (concerns k) us) (read_current py s k))
