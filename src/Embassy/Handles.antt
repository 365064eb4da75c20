-- ===== src/Embassy/Handles.antt =====
-- The semaphores and mutexes of embassy-example/src/lib.rs as boxes on the global heap, behind the entry
-- points that create and remove them.
use libcsp_rust.Base.{ℕ, ◌≡◌, ◌∷◌, false, Option, none, some, refl}
use libcsp_rust.Base.Int.{pos}
use libcsp_rust.Base.Places.{has}
use libcsp_rust.Arch.Handles.{
  Memory, M, pure, fault, ◌>>=◌, ◌>>◌, malloc, free, bind-some, bind-none, free-first, free-none,
  HandleMethods, csp_bin_sem_create, csp_bin_sem_remove, csp_mutex_create, csp_mutex_remove,
}

-- `Box::into_raw(Box::new(..))`: a heap that has no block for it ends the program.
unfoldable pub boxed : Option ℕ → M (Option ℕ)
boxed none = fault
boxed (some p) = pure (some p)

module _ (block : Option ℕ) where
  unfoldable pub bin_sem_create : M (Option ℕ)
  unfolding boxed
  bin_sem_create = do sem ← malloc block; boxed sem

  unfoldable pub mutex_create : M (Option ℕ)
  unfolding boxed
  mutex_create = do mutex ← malloc block; boxed mutex

-- `Box::from_raw` of a null pointer is a fault.
unfoldable pub bin_sem_remove : Option ℕ → M (Unit {0})
bin_sem_remove none = fault
bin_sem_remove (some p) = free p

unfoldable pub mutex_remove : Option ℕ → M (Unit {0})
mutex_remove none = fault
mutex_remove (some p) = free p

abbrev pub semaphores : Option ℕ → HandleMethods
semaphores block = record { create = bin_sem_create block; remove_handle = bin_sem_remove }

abbrev pub mutexes : Option ℕ → HandleMethods
mutexes block = record { create = mutex_create block; remove_handle = mutex_remove }

-- Where the heap has a block that is not live, creating a semaphore or a mutex takes that block and
-- nothing else, and removing it gives back exactly that; removing it once more is a fault.
pub csp_bin_sem_remove-created :
    (p : ℕ) (slot : Option ℕ) (w : Memory)
    → has p w.blocks ≡ false
    → let w' = record w { blocks = p ∷ w.blocks } in
      (csp_bin_sem_create (semaphores (some p)) (some slot) w ≡ some ((pos 0, some (some p)), w'))
      × (csp_bin_sem_remove (semaphores (some p)) (some (some p)) w' ≡ some (pos 0, w))
      × (csp_bin_sem_remove (semaphores (some p)) (some (some p)) w ≡ none)
      × (csp_mutex_create (mutexes (some p)) (some slot) w ≡ some ((pos 0, some (some p)), w'))
      × (csp_mutex_remove (mutexes (some p)) (some (some p)) w' ≡ some (pos 0, w))
      × (csp_mutex_remove (mutexes (some p)) (some (some p)) w ≡ none)
unfolding csp_bin_sem_create csp_bin_sem_remove csp_mutex_create csp_mutex_remove bin_sem_create
    bin_sem_remove mutex_create mutex_remove boxed
csp_bin_sem_remove-created p slot w f =
    let gone : (free p >> pure (pos 0)) (record w { blocks = p ∷ w.blocks }) ≡ some (pos 0, w) =
      bind-some (free p) (λ u. pure (pos 0)) (record w { blocks = p ∷ w.blocks }) w tt
        (free-first p w.blocks w.objects) in
    let again : (free p >> pure (pos 0)) w ≡ none =
      bind-none (free p) (λ u. pure (pos 0)) w (free-none p w f) in
    (refl, gone, again, refl, gone, again)
