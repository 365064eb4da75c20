-- ===== src/CustomArch.antt =====
-- examples/custom_arch_external/src/main.rs: the backend of stubs that its comment calls the safest possible
-- values that do nothing, behind the entry points of `export_arch!`. A handle is of any type.
use libcsp_rust.Base.{ℕ, [], Bool, true, Option, none, some, ◌-◌, ◌^◌}
use libcsp_rust.Fifo.{Item, QueueMethods}
use libcsp_rust.Arch.Semaphores.{SemaphoreMethods, MutexArch}

unfoldable pub get_ms : ℕ
get_ms = 0

unfoldable pub get_s : ℕ
get_s = 0

module _ {Handle : Type 0} where
  unfoldable pub bin_sem_create : Option Handle
  bin_sem_create = none

  -- The removing methods do nothing.
  unfoldable pub bin_sem_remove : Handle → Handle
  bin_sem_remove sem = sem

  unfoldable pub mutex_remove : Handle → Handle
  mutex_remove mutex = mutex

  unfoldable pub queue_remove : Handle → Handle
  queue_remove queue = queue

  unfoldable pub bin_sem_wait : Handle → ℕ → Bool × Handle
  bin_sem_wait sem timeout_ms = (true, sem)

  unfoldable pub bin_sem_post : Handle → Bool × Handle
  bin_sem_post sem = (true, sem)

  unfoldable pub mutex_create : Option Handle
  mutex_create = none

  unfoldable pub mutex_lock : Handle → ℕ → Bool × Handle
  mutex_lock mutex timeout_ms = (true, mutex)

  unfoldable pub mutex_unlock : Handle → Bool × Handle
  mutex_unlock mutex = (true, mutex)

  unfoldable pub queue_create : ℕ → ℕ → Option Handle
  queue_create length' item_size = none

  unfoldable pub queue_enqueue : Handle → Item → ℕ → Bool × Handle
  queue_enqueue queue item timeout_ms = (true, queue)

  -- Success, and not a byte is written.
  unfoldable pub queue_dequeue : Handle → ℕ → Option Item × Handle
  queue_dequeue queue timeout_ms = (some [], queue)

  unfoldable pub queue_size : Handle → ℕ
  queue_size queue = 0

module _ (Handle : Type 0) where
  abbrev pub custom_semaphores : SemaphoreMethods
  custom_semaphores = record {
    Semaphore = Handle;
    bin_sem_create = bin_sem_create;
    bin_sem_wait = bin_sem_wait;
    bin_sem_post = bin_sem_post;
  }

  abbrev pub custom_mutexes : MutexArch
  custom_mutexes = record {
    Mutex = Handle;
    mutex_create = mutex_create;
    mutex_lock = mutex_lock;
    mutex_unlock = mutex_unlock;
  }

  abbrev pub custom_queues : QueueMethods
  custom_queues = record {
    Queue = Handle;
    queue_enqueue = queue_enqueue;
    queue_dequeue = queue_dequeue;
    queue_size = queue_size;
    queue_free_slots = λ queue. 2 ^ 64 - 1;
  }
