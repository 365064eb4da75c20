-- ===== src/TestArch/Handles.antt =====
-- How src/arch/test_arch.rs makes and unmakes a mutex and the two kinds of semaphore, over libc's memory.
pub mod Balance
use libcsp_rust.Base.{
  ℕ, ◌+◌, ◌≡◌, ◌⊎◌, inl, inr, List, [], ◌∷◌, Bool, true, false, Option, none, some, if◌then◌else◌,
  arith, ◌||◌, ◌==◌, refl, Bool-cases, ◌∙◌,
}
use libcsp_rust.Base.Int.{ℤ, pos, negsuc}
use libcsp_rust.Base.Places.{has, remove}
use libcsp_rust.Arch.Handles.{
  free-none, free-first, destroy-first, bind-some, bind-none, stored, Memory, M, pure, fault, ◌>>=◌,
  ◌>>◌, malloc, free, init, destroy, HandleMethods, csp_bin_sem_create, csp_bin_sem_remove,
  csp_mutex_create, csp_mutex_remove,
}

-- What libc answers while an object is made: the block, and whether each initialisation succeeds.
pub record Answers : Type 0 where
  pub block : Option ℕ
  pub mutex_ok : Bool
  pub cond_ok : Bool
  pub sem_ok : Bool

-- Where the condition variable and the value of a `BinSem` lie; its mutex comes first.
pub record Layout : Type 0 where
  pub cond_at : ℕ
  pub value_at : ℕ

unfoldable pub parts : Layout → ℕ → ℕ × ℕ × ℕ
parts at sem = (sem, sem + at.cond_at, sem + at.value_at)

-- One object in a block of its own; the block is freed when the object cannot be initialised.
unfoldable pub initialised : Bool → Option ℕ → M (Option ℕ)
initialised succeeds none = pure none
initialised succeeds (some p) = do
  ok ← init p succeeds
  if ok then pure (some p) else (free p >> pure none)

-- The parts of a `BinSem`, and what is undone when one cannot be initialised.
unfoldable pub initialised_parts : Answers → Layout → Option ℕ → M (Option ℕ)
unfolding parts
initialised_parts a at none = pure none
initialised_parts a at (some p) = do
  ok ← init (parts at p).0 a.mutex_ok
  if ok
      then (do
        ok' ← init (parts at p).1 a.cond_ok
        if ok' then pure (some p) else (destroy (parts at p).0 >> (free p >> pure none)))
      else (free p >> pure none)

module _ (a : Answers) where
  unfoldable pub mutex_create : M (Option ℕ)
  unfolding initialised
  mutex_create = do mutex ← malloc a.block; initialised a.mutex_ok mutex

  -- The `sem_t` of all systems but macOS
  unfoldable pub create_posix : M (Option ℕ)
  unfolding initialised
  create_posix = do sem ← malloc a.block; initialised a.sem_ok sem

  -- The `BinSem` of macOS; what its value is stands in TestArch/Semaphore.
  unfoldable pub create_macos : Layout → M (Option ℕ)
  unfolding initialised_parts
  create_macos at = do raw ← malloc a.block; initialised_parts a at raw

-- The handle goes to libc as it is; a null pointer is a fault there.
unfoldable pub mutex_remove : Option ℕ → M (Unit {0})
mutex_remove none = fault
mutex_remove (some p) = do destroy p; free p

unfoldable pub remove_posix : Option ℕ → M (Unit {0})
remove_posix none = fault
remove_posix (some p) = do destroy p; free p

unfoldable pub remove_macos : Layout → Option ℕ → M (Unit {0})
unfolding parts
remove_macos at none = fault
remove_macos at (some p) = do destroy (parts at p).1; destroy (parts at p).0; free p

pub data Kind : Type 0 where
  mutex posix_semaphore macos_semaphore : Kind

abbrev pub methods_of : Kind → Answers → Layout → HandleMethods
methods_of mutex a at = record { create = mutex_create a; remove_handle = mutex_remove }
methods_of posix_semaphore a at = record { create = create_posix a; remove_handle = remove_posix }
methods_of macos_semaphore a at = record {
  create = create_macos a at;
  remove_handle = remove_macos at;
}

-- The entry points for a kind of object
abbrev pub csp_create : Kind → Answers → Layout → Option (Option ℕ) → M (ℤ × Option (Option ℕ))
csp_create mutex a at = csp_mutex_create (methods_of mutex a at)
csp_create posix_semaphore a at = csp_bin_sem_create (methods_of posix_semaphore a at)
csp_create macos_semaphore a at = csp_bin_sem_create (methods_of macos_semaphore a at)

abbrev pub csp_remove : Kind → Answers → Layout → Option (Option ℕ) → M ℤ
csp_remove mutex a at = csp_mutex_remove (methods_of mutex a at)
csp_remove posix_semaphore a at = csp_bin_sem_remove (methods_of posix_semaphore a at)
csp_remove macos_semaphore a at = csp_bin_sem_remove (methods_of macos_semaphore a at)

-- The block that libc gives is not live.
abbrev pub IsFree : Option ℕ → Memory → Type 0
IsFree none w = Unit
IsFree (some p) w = has p w.blocks ≡ false

-- What a creation comes to
abbrev pub Balanced : Kind → Answers → Layout → Option ℕ → Memory → Type 0
Balanced k a at slot w =
    (csp_create k a at (some slot) w ≡ some ((negsuc 0, some slot), w))
    ⊎ ((p : ℕ) × (w' : Memory) × (csp_create k a at (some slot) w
          ≡ some ((pos 0, some (some p)), w'))
        × (csp_remove k a at (some (some p)) w' ≡ some (pos 0, w))
        × (csp_remove k a at (some (some p)) w ≡ none))
