-- ===== src/Arch/Semaphores/Trace.antt =====
-- Sequences of semaphore calls, the waits with timeout 0.
use libcsp_rust.Base.{List, [], ◌∷◌, Bool, true, false, Option, some, ◌≡◌, refl, ap, ap₂, ◌∙◌}
use libcsp_rust.Base.Int.{ℤ, pos, negsuc}
use libcsp_rust.Arch.Queues.{status}
use libcsp_rust.Arch.Semaphores.{
  SemaphoreMethods, SemaphoreArch, csp_bin_sem_init, csp_bin_sem_wait, csp_bin_sem_post, on_slot,
}

pub data Call : Type 0 where
  wait post : Call

-- The status of each call on the slot.
module _ (methods : SemaphoreMethods) where
  open methods use {Semaphore}

  unfoldable pub statuses : Option Semaphore → List Call → List ℤ
  statuses sem [] = []
  statuses sem (wait ∷ calls) =
      let (ret, sem') = csp_bin_sem_wait methods sem 0 in ret ∷ statuses sem' calls
  statuses sem (post ∷ calls) =
      let (ret, sem') = csp_bin_sem_post methods sem in ret ∷ statuses sem' calls

-- The same calls on one permit: a wait succeeds where there is one, and takes it.
unfoldable pub permit_statuses : Bool → List Call → List ℤ
permit_statuses permit [] = []
permit_statuses permit (wait ∷ calls) = status permit ∷ permit_statuses false calls
permit_statuses permit (post ∷ calls) = pos 0 ∷ permit_statuses true calls

module _ (arch : SemaphoreArch) where
  open arch use {methods, is_posted, wait_takes, post_restores}
  open methods use {Semaphore, bin_sem_wait, bin_sem_post}

  -- On a live semaphore of a backend that meets the laws of `SemaphoreArch`, every sequence of posts and of waits with timeout 0 returns
  -- what a single permit gives.
  pub statuses_refine :
      (calls : List Call) (s : Semaphore)
      → statuses methods (some s) calls ≡ permit_statuses (is_posted s) calls
  unfolding statuses permit_statuses csp_bin_sem_wait csp_bin_sem_post on_slot
  statuses_refine [] s = refl
  statuses_refine (wait ∷ calls) s =
      let (taken, left) = wait_takes s in
      ap₂ (λ b r. status b ∷ r) taken
        (statuses_refine calls (bin_sem_wait s 0).1 ∙ ap (λ b. permit_statuses b calls) left)
  statuses_refine (post ∷ calls) s =
      let (done, left) = post_restores s in
      ap₂ (λ b r. status b ∷ r) done
        (statuses_refine calls (bin_sem_post s).1 ∙ ap (λ b. permit_statuses b calls) left)

  -- On a backend that meets those laws and whose `create` succeeds, a semaphore that `csp_bin_sem_init` has made lets exactly
  -- one wait through before the next post, whatever the slot held.
  pub statuses-csp_bin_sem_init :
      (s : Semaphore) (slot : Option Semaphore) (calls : List Call)
      → methods.bin_sem_create ≡ some s
      → (made : Semaphore) × (csp_bin_sem_init methods (some slot) ≡ some (some made))
        × (statuses methods (some made) (wait ∷ (wait ∷ calls))
            ≡ pos 0 ∷ (negsuc 0 ∷ permit_statuses false calls))
  unfolding csp_bin_sem_init permit_statuses
  statuses-csp_bin_sem_init s slot calls e = (
    (bin_sem_post s).1,
    rw e refl,
    statuses_refine (wait ∷ (wait ∷ calls)) (bin_sem_post s).1
        ∙ ap (λ b. permit_statuses b (wait ∷ (wait ∷ calls))) (post_restores s).1,
  )
