-- ===== src/TaskManager/Instances/Racing.antt =====
-- `__new__` of fish_async_task/task_manager.py in many threads: the first check, the block under
-- `_instance_lock` and the last read are three steps, between which other threads come. No instance
-- is destroyed meanwhile.
use fish_async_task.Prelude.{
  ℕ, ◌+◌, ◌≡◌, String, ◌==◌, true, Option, List, [], ◌∷◌, if◌then◌else◌, eqb,
}
use fish_async_task.Prelude.Dict
use fish_async_task.Prelude.Dict.{Dict}
use fish_async_task.TaskManager.Instances.{Instance, Registry, create, read_instance}

-- Where a thread is in `__new__`: outside, past the first check that found no instance, past the
-- check that found one or the block under the lock, or back with what it read.
pub data Phase : Type 0 where
  idle : Phase
  absent present : String → Phase
  answered : String → Option ℕ → Phase

pub data Step : Type 0 where
  calls : String → Step
  enters reads : Step

-- A step of one thread; a step that does not fit its phase does nothing.
unfoldable pub advance : Step → Phase → Registry → Phase × Registry
unfolding create read_instance
advance (calls k) idle r = (if Dict.has k r.instances then present k else absent k, r)
advance (calls k) (answered j o) r = (if Dict.has k r.instances then present k else absent k, r)
advance (calls k) (absent j) r = (absent j, r)
advance (calls k) (present j) r = (present j, r)
advance enters (absent k) r = (present k, create k r)
advance enters idle r = (idle, r)
advance enters (present k) r = (present k, r)
advance enters (answered k o) r = (answered k o, r)
advance reads (present k) r = (answered k (read_instance k r), r)
advance reads idle r = (idle, r)
advance reads (absent k) r = (absent k, r)
advance reads (answered k o) r = (answered k o, r)

-- The class with its threads.
pub record Pool : Type 0 where
  pub registry : Registry
  pub phases : ℕ → Phase

unfoldable pub step : Pool → ℕ × Step → Pool
unfolding advance
step p (i, s) =
    let (phase, r) = advance s (p.phases i) p.registry in
    record { registry = r; phases = λ j. if eqb i j then phase else p.phases j }

unfoldable pub run : Pool → List (ℕ × Step) → Pool
unfolding step
run p [] = p
run p (s ∷ ss) = run (step p s) ss

abbrev pub no_instances : Pool
no_instances = record { registry = record { instances = []; objects = [] }; phases = λ j. idle }

-- How many objects were made for a key.
abbrev pub made : String → List Instance → ℕ
made k [] = 0
made k (o ∷ os) = if o.instance_key == k then 1 + made k os else made k os

-- A present key stays present, with the same instance.
abbrev Grows : Registry → Registry → Type 0
Grows r r' =
    (k : String)
    → Dict.has k r.instances ≡ true
    → (Dict.has k r'.instances ≡ true) × (Dict.lookup k r'.instances ≡ Dict.lookup k r.instances)

-- One object was made for each key that is present, none for the others.
abbrev EachOnce : Registry → Type 0
EachOnce r = (k : String) → made k r.objects ≡ (if Dict.has k r.instances then 1 else 0)

-- What the phase of a thread says of the dict.
abbrev Backed : Registry → Phase → Type 0
Backed r idle = Unit
Backed r (absent k) = Unit
Backed r (present k) = Dict.has k r.instances ≡ true
Backed r (answered k o) = (Dict.has k r.instances ≡ true) × (o ≡ Dict.lookup k r.instances)

record Sound (p : Pool) : Type 0 where
  once : EachOnce p.registry
  backed : (j : ℕ) → Backed p.registry (p.phases j)

-- The block under the lock.
record Created (k : String) (r r' : Registry) : Type 0 where
  there : Dict.has k r'.instances ≡ true
  grows : Grows r r'
  once : EachOnce r'

-- A step of a thread is sound for it, and takes nothing from the others.
record Advanced (r : Registry) (a : Phase × Registry) : Type 0 where
  grows : Grows r a.1
  once : EachOnce a.1
  backed : Backed a.1 a.0
