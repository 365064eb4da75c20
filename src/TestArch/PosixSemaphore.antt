-- ===== src/TestArch/PosixSemaphore.antt =====
-- The module `bin_sem` of src/arch/test_arch.rs where it is made of libc's `sem_t` (all systems but
-- macOS). libc is a parameter, with what it documents of a `sem_t`.
use libcsp_rust.Base.{
  ℕ, zero, suc, ◌<◌, ◌≡◌, List, [], ◌∷◌, Bool, true, false, Option, none, some, if◌then◌else◌,
}
use libcsp_rust.Base.Int.{ℤ, pos, negsuc}
use libcsp_rust.Arch.Semaphores.{SemaphoreMethods}
use libcsp_rust.Arch.Semaphores.Trace.{Call, wait, post}

-- A semaphore has a value. `sem_init` sets it, `sem_post` raises it below `sem_value_max`, and a wait
-- lowers it, or gives up at its deadline while it is 0.
pub record Libc : Type 1 where
  pub Sem : Type 0
  pub sem_value_max : ℕ
  pub value : Sem → ℕ
  pub sem_init : ℕ → Option Sem
  pub sem_timedwait : Sem → ℕ → Bool × Sem
  pub sem_post : Sem → Bool × Sem
  pub init_value : (n : ℕ) (s : Sem) → sem_init n ≡ some s → value s ≡ n
  pub wait_zero :
      (s : Sem) → value s ≡ 0 → ((sem_timedwait s 0).0 ≡ false) × (value (sem_timedwait s 0).1 ≡ 0)
  pub wait_suc :
      (s : Sem) (n : ℕ)
      → value s ≡ suc n
      → ((sem_timedwait s 0).0 ≡ true) × (value (sem_timedwait s 0).1 ≡ n)
  pub post_value :
      (s : Sem)
      → value s < sem_value_max
      → ((sem_post s).0 ≡ true) × (value (sem_post s).1 ≡ suc (value s))

module _ (libc : Libc) where
  open libc use {Sem, sem_init, sem_timedwait, sem_post}

  -- `allocated` is whether `malloc` gives memory.
  unfoldable pub create : Bool → Option Sem
  create allocated = if allocated then sem_init 1 else none

  unfoldable pub wait_sem : Sem → ℕ → Bool × Sem
  wait_sem sem timeout = sem_timedwait sem timeout

  unfoldable pub post_sem : Sem → Bool × Sem
  post_sem sem = sem_post sem

  abbrev pub posix_semaphore : Bool → SemaphoreMethods
  posix_semaphore allocated = record {
    Semaphore = Sem;
    bin_sem_create = create allocated;
    bin_sem_wait = wait_sem;
    bin_sem_post = post_sem;
  }

-- The calls on a count: a wait succeeds while it is not 0.
unfoldable pub count_statuses : ℕ → List Call → List ℤ
count_statuses n [] = []
count_statuses zero (wait ∷ calls) = negsuc 0 ∷ count_statuses zero calls
count_statuses (suc n) (wait ∷ calls) = pos 0 ∷ count_statuses n calls
count_statuses n (post ∷ calls) = pos 0 ∷ count_statuses (suc n) calls
