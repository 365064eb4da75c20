-- ===== src/Arch/Semaphores.antt =====
-- The semaphore and mutex entry points of `export_arch!` (src/arch.rs), over any backend. A pointer to
-- a slot is `none` when it is null; a slot that holds a live handle is the object itself.
pub mod Trace
use libcsp_rust.Base.{ℕ, Bool, true, false, Option, none, some, ◌≡◌}
use libcsp_rust.Base.Int.{ℤ, pos, negsuc}
use libcsp_rust.Arch.Queues.{status}

-- A backend's semaphore methods; a wait has its timeout in milliseconds. A wait that does not return has
-- no place here.
pub record SemaphoreMethods : Type 1 where
  pub Semaphore : Type 0
  pub bin_sem_create : Option Semaphore
  pub bin_sem_wait : Semaphore → ℕ → Bool × Semaphore
  pub bin_sem_post : Semaphore → Bool × Semaphore

-- The methods with the law that makes a semaphore binary: `is_posted` is the one permit that a wait
-- with timeout 0 takes and a post restores.
pub record SemaphoreArch : Type 1 where
  pub methods : SemaphoreMethods
  pub is_posted : methods.Semaphore → Bool
  pub wait_takes :
      (s : methods.Semaphore)
      → ((methods.bin_sem_wait s 0).0 ≡ is_posted s)
        × (is_posted (methods.bin_sem_wait s 0).1 ≡ false)
  pub post_restores :
      (s : methods.Semaphore)
      → ((methods.bin_sem_post s).0 ≡ true) × (is_posted (methods.bin_sem_post s).1 ≡ true)

-- A mutex of a backend.
pub record MutexArch : Type 1 where
  pub Mutex : Type 0
  pub mutex_create : Option Mutex
  pub mutex_lock : Mutex → ℕ → Bool × Mutex
  pub mutex_unlock : Mutex → Bool × Mutex

-- What a creating call leaves in the slot.
unfoldable pub created : {A : Type 0} → Option A → Option A → ℤ × Option A
created none slot = (negsuc 0, slot)
created (some x) slot = (pos 0, some x)

-- A call on the object behind a pointer.
unfoldable pub on_slot : {A : Type 0} → (A → Bool × A) → Option A → ℤ × Option A
on_slot f none = (negsuc 0, none)
on_slot f (some s) = let (done, s') = f s in (status done, some s')

module _ (methods : SemaphoreMethods) where
  open methods use {Semaphore, bin_sem_create, bin_sem_wait, bin_sem_post}

  -- `none` is the null pointer, otherwise the slot, which may be empty.
  unfoldable pub csp_bin_sem_create : Option (Option Semaphore) → ℤ × Option (Option Semaphore)
  unfolding created
  csp_bin_sem_create none = (negsuc 0, none)
  csp_bin_sem_create (some slot) =
      let (ret, slot') = created bin_sem_create slot in (ret, some slot')

  -- `create` and one `post`; a failed `create` leaves the slot.
  unfoldable pub csp_bin_sem_init : Option (Option Semaphore) → Option (Option Semaphore)
  csp_bin_sem_init none = none
  csp_bin_sem_init (some slot) = elim bin_sem_create [
    | none ↦ some slot
    | some s ↦ some (some (bin_sem_post s).1)
  ]

  unfoldable pub csp_bin_sem_wait : Option Semaphore → ℕ → ℤ × Option Semaphore
  unfolding on_slot
  csp_bin_sem_wait sem timeout = on_slot (λ s. bin_sem_wait s timeout) sem

  unfoldable pub csp_bin_sem_post : Option Semaphore → ℤ × Option Semaphore
  unfolding on_slot
  csp_bin_sem_post sem = on_slot bin_sem_post sem

  unfoldable pub csp_bin_sem_post_isr : Option Semaphore → ℤ × Option Semaphore
  unfolding on_slot
  csp_bin_sem_post_isr sem = on_slot bin_sem_post sem

module _ (arch : MutexArch) where
  open arch use {Mutex, mutex_create, mutex_lock, mutex_unlock}

  unfoldable pub csp_mutex_create : Option (Option Mutex) → ℤ × Option (Option Mutex)
  unfolding created
  csp_mutex_create none = (negsuc 0, none)
  csp_mutex_create (some slot) = let (ret, slot') = created mutex_create slot in (ret, some slot')

  unfoldable pub csp_mutex_lock : Option Mutex → ℕ → ℤ × Option Mutex
  unfolding on_slot
  csp_mutex_lock mutex timeout = on_slot (λ m. mutex_lock m timeout) mutex

  unfoldable pub csp_mutex_unlock : Option Mutex → ℤ × Option Mutex
  unfolding on_slot
  csp_mutex_unlock mutex = on_slot mutex_unlock mutex
