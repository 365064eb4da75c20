-- ===== src/TestArch/Semaphore.antt =====
-- The module `bin_sem` of src/arch/test_arch.rs where it is made of a mutex, a condition variable and
-- a value (macOS). A wait on the condition variable gives the mutex away: each wake-up says whether
-- the call succeeded and which value stands there then. Elsewhere the semaphore is libc's `sem_t`.
use libcsp_rust.Base.{
  ℕ, zero, suc, ◌≡◌, List, [], ◌∷◌, ◌++◌, Bool, true, false, not, Option, some, ◌==◌, if◌then◌else◌,
  arith, refl, Bool-cases, inl, inr,
}
use libcsp_rust.Arch.Semaphores.{SemaphoreArch}

pub record WakeUp : Type 0 where
  pub succeeded : Bool
  pub seen : ℕ

-- How a wait ended, with the value it leaves; `waiting` if the wake-ups are used up.
pub data Waited : Type 0 where
  returned : Bool → ℕ → Waited
  waiting : Waited

unfoldable pub create : Option ℕ
create = some 1

-- `while value.read() == 0`, and what follows it.
unfoldable pub wait_loop : ℕ → List WakeUp → Waited
wait_loop value [] = if value == 0 then waiting else returned true 0
wait_loop value (w ∷ wakes) =
    let rest = wait_loop w.seen wakes in
    if value == 0 then (if w.succeeded then rest else returned false w.seen) else returned true 0

-- `locked` is whether `pthread_mutex_lock` succeeded.
unfoldable pub wait : Bool → ℕ → List WakeUp → Waited
unfolding wait_loop
wait locked value wakes = if locked then wait_loop value wakes else returned false value

unfoldable pub post : Bool → ℕ → Bool × ℕ
post locked value = if locked then (true, if value == 0 then 1 else value) else (false, value)

-- A wait whose deadline has passed, with no other thread in between.
unfoldable pub try_wait : ℕ → Bool × ℕ
unfolding wait
try_wait value = tried (wait true value (record { succeeded = false; seen = value } ∷ []))
  where
    tried : Waited → Bool × ℕ
    tried (returned b v) = (b, v)
    tried waiting = (false, value)

abbrev pub is_posted : ℕ → Bool
is_posted value = not (value == 0)

pub try_wait_takes :
    (value : ℕ) → ((try_wait value).0 ≡ is_posted value) × (is_posted (try_wait value).1 ≡ false)
unfolding try_wait
try_wait_takes zero = (refl, refl)
try_wait_takes (suc n) = ground arith

pub post_restores :
    (value : ℕ) → ((post true value).0 ≡ true) × (is_posted (post true value).1 ≡ true)
unfolding post
post_restores zero = (refl, refl)
post_restores (suc n) = ground arith

-- The hosted semaphore of macOS is a backend, where the mutex can be locked. Whatever the timeout, a
-- wait is given up at the first wake-up that fails.
abbrev pub test_semaphore : SemaphoreArch
test_semaphore = record {
  methods = record {
    Semaphore = ℕ;
    bin_sem_create = create;
    bin_sem_wait = λ value timeout. try_wait value;
    bin_sem_post = post true;
  };
  is_posted = is_posted;
  wait_takes = try_wait_takes;
  post_restores = post_restores;
}

-- With the mutex locked, a wait ends at the latest at the first wake-up that fails.
pub wait_ends :
    (value : ℕ) (before : List WakeUp) (w : WakeUp) (after : List WakeUp)
    → not w.succeeded ≡ true
    → (done : Bool) × (v : ℕ) × (wait true value (before ++ (w ∷ after)) ≡ returned done v)
unfolding wait
wait_ends zero [] w after h = (false, w.seen, ground arith)
wait_ends (suc n) [] w after h = (true, 0, ground arith)
wait_ends (suc n) (b ∷ before) w after h = (true, 0, ground arith)
wait_ends zero (b ∷ before) w after h =
    let (done, v, e) = wait_ends b.seen before w after h in
    elim (Bool-cases b.succeeded) [
      | inl woke ↦ rw woke (done, v, e)
      | inr failed ↦ rw failed (false, b.seen, refl)
    ]
