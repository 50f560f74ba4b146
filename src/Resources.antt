-- ===== src/Resources.antt =====
-- `TaskResourceManager` of fish_async_task/performance/resource_manager.py. Each method holds the
-- manager's lock from beginning to end and is one step. A resource is an opaque `A`; `cleanups` is
-- the list of the resources whose `cleanup` was called, in that order, on the caller's thread or on
-- one of its own. `TaskResource.cleanup` catches what the cleanup function raises. No method of the
-- manager changes `last_used`.
pub mod Bounds
pub mod Cleanup
pub mod Tracker
use fish_async_task.Prelude.{
  ℕ, zero, suc, ◌+◌, String, Bool, true, false, Option, none, some, List, [], ◌∷◌, ◌++◌, leb, ltb,
  if◌then◌else◌, length, take,
}
use fish_async_task.Prelude.Dict.{Dict}
use fish_async_task.Prelude.Dict
use fish_async_task.Prelude.StringSet

pub record TaskResource (A : Type 0) : Type 0 where
  pub resource : A
  pub created_at : ℕ
  pub last_used : ℕ

pub record TaskResourceManager (A : Type 0) : Type 0 where
  pub max_tracked : ℕ
  pub resources : Dict (TaskResource A)
  pub task_resources : Dict (List String)
  pub cleanups : List A

-- `r.last_used` is more than an hour back.
abbrev pub is_expired : {A : Type 0} → ℕ → String × TaskResource A → Bool
is_expired now (_, r) = ltb (r.last_used + 3600) now

-- `resources.discard(resource_id)` for the set of each task.
unfoldable pub discard_each : String → Dict (List String) → Dict (List String)
discard_each r [] = []
discard_each r ((k, ids) ∷ d) = (k, StringSet.discard r ids) ∷ discard_each r d

-- `self._task_resources[task_id]`, where there is one.
abbrev pub or_empty : Option (List String) → List String
or_empty none = []
or_empty (some ids) = ids

-- `self._task_resources[task_id].add(resource_id)`, after a new set where the task has none.
abbrev pub add_for_task : String → String → Dict (List String) → Dict (List String)
add_for_task k r d = Dict.insert k (StringSet.add r (or_empty (Dict.lookup k d))) d

module _ {A : Type 0} where
  -- `__init__`
  unfoldable pub new : ℕ → TaskResourceManager A
  new max_tracked = record {
    max_tracked = max_tracked;
    resources = [];
    task_resources = [];
    cleanups = [];
  }

  -- `sorted(self._resources.items(), key=lambda x: x[1].last_used)`, which is stable.
  unfoldable pub insert_by_use :
      String × TaskResource A → Dict (TaskResource A) → Dict (TaskResource A)
  insert_by_use (k, r) [] = (k, r) ∷ []
  insert_by_use (k, r) ((j, q) ∷ d) =
      let deeper = insert_by_use (k, r) d in
      if ltb q.last_used r.last_used then (j, q) ∷ deeper else (k, r) ∷ (j, q) ∷ d

  unfoldable pub sort_by_use : Dict (TaskResource A) → Dict (TaskResource A)
  unfolding insert_by_use
  sort_by_use [] = []
  sort_by_use (e ∷ d) = insert_by_use e (sort_by_use d)

  -- `resource.cleanup()` and `del self._resources[resource_id]`
  unfoldable pub clean : String → TaskResource A → TaskResourceManager A → TaskResourceManager A
  clean k r m = record m {
    resources = Dict.delete k m.resources;
    cleanups = m.cleanups ++ (r.resource ∷ []);
  }

  -- The same, and the id is taken out of the sets of all tasks.
  unfoldable pub clean_everywhere :
      String → TaskResource A → TaskResourceManager A → TaskResourceManager A
  unfolding clean discard_each
  clean_everywhere k r m = record (clean k r m) { task_resources = discard_each k m.task_resources }

  -- The loops over resources that are all there.
  unfoldable pub clean_all : Dict (TaskResource A) → TaskResourceManager A → TaskResourceManager A
  unfolding clean_everywhere
  clean_all [] m = m
  clean_all ((k, r) ∷ d) m = clean_all d (clean_everywhere k r m)

  -- `_evict_oldest_resources`
  unfoldable pub evict_oldest_resources :
      (count : ℕ) → TaskResourceManager A → TaskResourceManager A
  unfolding sort_by_use clean_all
  evict_oldest_resources count m = clean_all (take count (sort_by_use m.resources)) m

  unfoldable pub register_resource :
      (now : ℕ) → String → String → A → TaskResourceManager A → TaskResourceManager A
  unfolding evict_oldest_resources
  register_resource now task_id resource_id a m =
      let evicted = evict_oldest_resources 100 m in
      let m' : TaskResourceManager A =
        if leb m.max_tracked (length m.resources) then evicted else m in
      record m' {
        resources =
            Dict.insert resource_id (record { resource = a; created_at = now; last_used = now })
              m'.resources;
        task_resources = add_for_task task_id resource_id m'.task_resources;
      }

  -- `if resource_id not in self._resources` and what follows.
  abbrev pub unregister_found :
      String → TaskResourceManager A → Option (TaskResource A) → Bool × TaskResourceManager A
  unregister_found k m none = (false, m)
  unregister_found k m (some r) = (true, clean_everywhere k r m)

  unfoldable pub unregister_resource : String → TaskResourceManager A → Bool × TaskResourceManager A
  unregister_resource k m = unregister_found k m (Dict.lookup k m.resources)

  unfoldable pub register_task : String → TaskResourceManager A → TaskResourceManager A
  register_task k m =
      if Dict.has k m.task_resources
      then m
      else record m { task_resources = Dict.insert k [] m.task_resources }

  -- The body of the loop of `cleanup_task_resources` over the ids of the task.
  abbrev pub clean_found :
      String → ℕ × TaskResourceManager A → Option (TaskResource A) → ℕ × TaskResourceManager A
  clean_found k (n, m) none = (n, m)
  clean_found k (n, m) (some r) = (suc n, clean k r m)

  unfoldable pub clean_ids : List String → ℕ × TaskResourceManager A → ℕ × TaskResourceManager A
  unfolding clean
  clean_ids [] (n, m) = (n, m)
  clean_ids (k ∷ ks) (n, m) = clean_ids ks (clean_found k (n, m) (Dict.lookup k m.resources))

  -- `if task_id not in self._task_resources` and what follows.
  abbrev pub cleanup_found :
      String → TaskResourceManager A → Option (List String) → ℕ × TaskResourceManager A
  cleanup_found k m none = (0, m)
  cleanup_found k m (some ids) =
      let (n, m') = clean_ids ids (0, m) in
      (n, record m' { task_resources = Dict.delete k m'.task_resources })

  -- `cleanup_task_resources`, and `force_cleanup_task`, which does the same.
  unfoldable pub cleanup_task_resources : String → TaskResourceManager A → ℕ × TaskResourceManager A
  cleanup_task_resources k m = cleanup_found k m (Dict.lookup k m.task_resources)

  -- The resources that `_perform_cleanup` finds expired.
  unfoldable pub expired_resources : (now : ℕ) → Dict (TaskResource A) → Dict (TaskResource A)
  expired_resources now [] = []
  expired_resources now (e ∷ d) =
      let rest = expired_resources now d in if is_expired now e then e ∷ rest else rest

  unfoldable pub perform_cleanup : (now : ℕ) → TaskResourceManager A → ℕ × TaskResourceManager A
  unfolding expired_resources clean_all
  perform_cleanup now m =
      let expired = take 100 (expired_resources now m.resources) in
      (length expired, clean_all expired m)

  unfoldable pub get_resource_count : TaskResourceManager A → ℕ
  get_resource_count m = length m.resources

  unfoldable pub get_task_resource_count : String → TaskResourceManager A → ℕ
  get_task_resource_count k m = length (or_empty (Dict.lookup k m.task_resources))
