-- ===== src/TaskManager/Instances.antt =====
-- The instances of `TaskManager` by their keys: `__new__` and `destroy_instance` of
-- fish_async_task/task_manager.py. The second check and the creation are under `_instance_lock`;
-- the first check and the last read are not. A creation that fails is not modelled.
pub mod Racing
use fish_async_task.Prelude.{
  ℕ, ◌∙◌, String, eq_iff, Bool, true, false, Option, none, some, List, [], ◌∷◌, ◌++◌, if◌then◌else◌,
  length, get_elem?, set, Bool-cases, Option-cases, inl, inr,
}
use fish_async_task.Prelude.Dict
use fish_async_task.Prelude.Dict.{Dict}

-- What of an instance matters here: its key, and whether `_running_event` is set.
pub record Instance : Type 0 where
  pub instance_key : String
  pub running : Bool

-- `_instances`, whose values are the positions of the instances among all that were ever made.
pub record Registry : Type 0 where
  pub instances : Dict ℕ
  pub objects : List Instance

-- The block under the lock.
unfoldable pub create : String → Registry → Registry
create key r = if Dict.has key r.instances then r else record {
  instances = Dict.insert key (length r.objects) r.instances;
  objects = r.objects ++ (record { instance_key = key; running = true } ∷ []);
}

-- `return cls._instances[instance_key]`, where `none` is the KeyError.
unfoldable pub read_instance : String → Registry → Option ℕ
read_instance key r = Dict.lookup key r.instances

-- `__new__`, where no other thread comes in between; Racing has the threads that do.
unfoldable pub new_instance : String → Registry → Option ℕ × Registry
unfolding create read_instance
new_instance key r =
    let r' = (if Dict.has key r.instances then r else create key r) in (read_instance key r', r')

-- `instance.shutdown()`, if it is running.
abbrev pub shut : ℕ → List Instance → List Instance
shut i objects = elim (get_elem? objects i) [
  | none ↦ objects
  | some o ↦ if o.running then set objects i (record o { running = false }) else objects
]

unfoldable pub destroy_instance : String → Registry → Bool × Registry
destroy_instance key r = elim (Dict.lookup key r.instances) [
  | none ↦ (false, r)
  | some i ↦ (true, record { instances = Dict.delete key r.instances; objects = shut i r.objects })
]
