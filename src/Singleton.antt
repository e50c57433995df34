-- ===== src/Singleton.antt =====
-- _include/ser_macros.h: GetInstance of IMPLEMENT_SINGLETON, called by any number of threads, and
-- the collector that deletes the object; DEL_PTR.
-- A step is one access to `mInstance` or to the mutex, the allocation of `new`, or the constructor.
-- `mInstance` is a plain pointer that is read without the mutex, a data race, so that the language
-- promises nothing. The model takes the accesses to be atomic, and has the one choice that matters
-- as an argument: whether the object is constructed before the pointer to it can be seen.
pub mod Steps
pub mod Instance
use linux_communication.Common.{
  ℕ, List, [], ◌∷◌, ◌+◌, ◌≡◌, Bool, true, false, Option, none, some, update, if◌then◌else◌,
}

-- Where a thread is in GetInstance.
pub data Stage : Type 0 where
  outside testing locking retesting allocating unlocking reading : Stage
  constructing publishing : ℕ → Stage
  returned : Option ℕ → Stage

-- `mInstance`, the number of objects that `new` has allocated, which of them are constructed, who
-- holds `mMutex`, and the threads.
pub record Singleton : Type 0 where
  pub instance_at : Option ℕ
  pub created : ℕ
  pub is_built : ℕ → Bool
  pub holder : Option ℕ
  pub stages : ℕ → Stage
  -- the objects that `delete` was called on
  pub deleted : List ℕ

abbrev pub set_stage : ℕ → Stage → Singleton → Singleton
set_stage t stage s = record s { stages = update s.stages t stage }

-- `nullptr == mInstance`
abbrev pub if_null : Option ℕ → Stage → Stage → Stage
if_null none then_stage else_stage = then_stage
if_null (some p) then_stage else_stage = else_stage

-- The constructor of `locker`; `none` where the thread has to wait.
unfoldable pub take_lock : ℕ → Option ℕ → Singleton → Option Singleton
take_lock t none s = some (set_stage t retesting (record s { holder = some t }))
take_lock t (some u) s = none

-- A step of thread `t` from its place; `none` where it cannot go on. `in_order` says whether the
-- constructor runs before the pointer is stored.
unfoldable pub step_from : Bool → Stage → ℕ → Singleton → Option Singleton
step_from in_order outside t s = some (set_stage t testing s)
step_from in_order testing t s = some (set_stage t (if_null s.instance_at locking reading) s)
step_from in_order locking t s = take_lock t s.holder s
step_from in_order retesting t s = some (set_stage t (if_null s.instance_at allocating unlocking) s)
step_from in_order allocating t s = some (
    set_stage t (if in_order then constructing s.created else publishing s.created)
      (record s { created = s.created + 1 }))
step_from in_order (constructing p) t s = some (
    set_stage t (if in_order then publishing p else unlocking)
      (record s { is_built = update s.is_built p true }))
step_from in_order (publishing p) t s = some (
    set_stage t (if in_order then unlocking else constructing p)
      (record s { instance_at = some p }))
step_from in_order unlocking t s = some (set_stage t reading (record s { holder = none }))
step_from in_order reading t s = some (set_stage t (returned s.instance_at) s)
step_from in_order (returned p) t s = none

abbrev pub start : Singleton
start = record {
  instance_at = none;
  created = 0;
  is_built = λ p. false;
  holder = none;
  stages = λ t. outside;
  deleted = [];
}

-- The states that any interleaving leads to.
pub data Reached (in_order : Bool) : Singleton → Type 0 where
  starts : Reached in_order start
  steps :
      (t : ℕ) (s u : Singleton)
      → Reached in_order s
      → step_from in_order (s.stages t) t s ≡ some u
      → Reached in_order u

-- `DEL_PTR`: the pointer, and the objects that have been deleted.
pub del_ptr : Option ℕ → List ℕ → Option ℕ × List ℕ
del_ptr none deleted = (none, deleted)
del_ptr (some p) deleted = (none, p ∷ deleted)

-- The end of the program: `~GarCollector`, whose object is made with the first instance. Without
-- an instance there is nothing to delete.
pub at_exit : Singleton → Singleton
at_exit s =
    let (p, gone) = del_ptr s.instance_at s.deleted in record s { instance_at = p; deleted = gone }
