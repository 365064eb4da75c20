-- ===== src/Embassy/Semaphore.antt =====
-- The semaphore methods of `EmbassyArch` (embassy-example/src/lib.rs). The spinning loop of a wait runs
-- on turns: what the clock says when the flag was found clear, and what the others leave in it.
use libcsp_rust.Base.{
  ℕ, ◌^◌, ◌-◌, ◌≡◌, ◌≢◌, ◌≤◌, ◌⊎◌, List, [], ◌∷◌, ◌++◌, Bool, true, false, not, ◌&&◌, Option, some,
  leb, ◌==◌, if◌then◌else◌, arith, refl,
}
use libcsp_rust.Arch.Semaphores.{SemaphoreArch}

pub record Turn : Type 0 where
  pub elapsed : ℕ
  pub left : Bool

-- How a wait ended, with the flag it leaves; `spinning` if the turns are used up.
pub data Spun : Type 0 where
  acquired timed_out : Bool → Spun
  spinning : Spun

abbrev pub bin_sem_create : Option Bool
bin_sem_create = some false

abbrev pub u32_max : ℕ
u32_max = 2 ^ 32 - 1

unfoldable pub bin_sem_wait : Bool → ℕ → List Turn → Spun
bin_sem_wait flag timeout_ms [] = if flag then acquired false else spinning
bin_sem_wait flag timeout_ms (t ∷ turns) =
    let rest = bin_sem_wait t.left timeout_ms turns in
    if flag
    then acquired false
    else (if not (timeout_ms == u32_max) && leb timeout_ms t.elapsed then timed_out false else rest)

unfoldable pub bin_sem_post : Bool → Bool × Bool
bin_sem_post flag = (true, true)

-- A wait that nothing else interferes with, on a clock that reaches the timeout. With the largest
-- timeout and a clear flag it would not return.
unfoldable pub wait_alone : Bool → ℕ → Bool × Bool
unfolding bin_sem_wait
wait_alone flag timeout =
    tried (bin_sem_wait flag timeout (record { elapsed = timeout; left = false } ∷ []))
  where
    tried : Spun → Bool × Bool
    tried (acquired f) = (true, f)
    tried (timed_out f) = (false, f)
    tried spinning = (false, flag)

pub wait_takes : (flag : Bool) → ((wait_alone flag 0).0 ≡ flag) × ((wait_alone flag 0).1 ≡ false)
unfolding wait_alone
wait_takes true = (refl, refl)
wait_takes false = (refl, refl)

pub post_restores : (flag : Bool) → ((bin_sem_post flag).0 ≡ true) × ((bin_sem_post flag).1 ≡ true)
unfolding bin_sem_post
post_restores flag = (refl, refl)

-- The bare-metal semaphore is a backend.
abbrev pub embassy_semaphore : SemaphoreArch
embassy_semaphore = record {
  methods = record {
    Semaphore = Bool;
    bin_sem_create = bin_sem_create;
    bin_sem_wait = wait_alone;
    bin_sem_post = bin_sem_post;
  };
  is_posted = λ flag. flag;
  wait_takes = wait_takes;
  post_restores = post_restores;
}

-- A wait that is given up had a timeout other than the largest.
pub bin_sem_wait-timed_out :
    (flag left : Bool) (timeout_ms : ℕ) (turns : List Turn)
    → bin_sem_wait flag timeout_ms turns ≡ timed_out left
    → timeout_ms ≢ u32_max
unfolding bin_sem_wait
bin_sem_wait-timed_out flag left timeout_ms [] e = ground arith
bin_sem_wait-timed_out flag left timeout_ms (t ∷ turns) e =
    ground (arith, bin_sem_wait-timed_out t.left left timeout_ms turns)

-- A wait ends at the latest at the first turn that leaves the flag set, or whose clock has reached a
-- timeout other than the largest.
pub bin_sem_wait_ends :
    (flag : Bool) (timeout_ms : ℕ) (before : List Turn) (t : Turn) (after : List Turn)
    → (t.left ≡ true) ⊎ ((timeout_ms ≢ u32_max) × (timeout_ms ≤ t.elapsed))
    → bin_sem_wait flag timeout_ms (before ++ (t ∷ after)) ≢ spinning
unfolding bin_sem_wait
bin_sem_wait_ends flag timeout_ms [] t [] h = ground arith
bin_sem_wait_ends flag timeout_ms [] t (u ∷ after) h = ground arith
bin_sem_wait_ends flag timeout_ms (u ∷ before) t after h =
    ground (arith, bin_sem_wait_ends u.left timeout_ms before t after h)
