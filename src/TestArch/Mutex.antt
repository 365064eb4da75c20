-- ===== src/TestArch/Mutex.antt =====
-- The mutexes of src/arch/test_arch.rs: each method is one call of libc's, with the mutex in its state.
use libcsp_rust.Base.{ℕ, Bool}
use libcsp_rust.Base.Int.{ℤ, pos, ◌==ℤ◌}

-- What `pthread_mutex_lock` and `pthread_mutex_unlock` return, and the mutex afterwards
pub record Pthread (Mutex : Type 0) : Type 0 where
  pub pthread_mutex_lock : Mutex → ℤ × Mutex
  pub pthread_mutex_unlock : Mutex → ℤ × Mutex

module _ {Mutex : Type 0} (libc : Pthread Mutex) where
  -- The timeout is not used.
  unfoldable pub mutex_lock : Mutex → ℕ → Bool × Mutex
  mutex_lock mutex timeout =
      let (ret, mutex') = libc.pthread_mutex_lock mutex in (ret ==ℤ pos 0, mutex')

  unfoldable pub mutex_unlock : Mutex → Bool × Mutex
  mutex_unlock mutex =
      let (ret, mutex') = libc.pthread_mutex_unlock mutex in (ret ==ℤ pos 0, mutex')
