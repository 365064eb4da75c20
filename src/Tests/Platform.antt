-- ===== src/Tests/Platform.antt =====
-- The semaphores and the clocks at concrete inputs.
use libcsp_rust.Base.{◌≡◌, ◌≢◌, inr, arith, [], ◌∷◌, true, false, some}
use libcsp_rust.Base.{none}
use libcsp_rust.Arch.Handles.{Memory}
use libcsp_rust.TestArch.Handles.{Answers, Layout, macos_semaphore, Balanced}
use libcsp_rust.TestArch.Handles.Balance.{csp_create-Balanced}
use libcsp_rust.Base.{◌↔◌, ◌<◌, ◌≤◌, ◌^◌}
use libcsp_rust.TestArch.Clock
use libcsp_rust.TestArch.Clock.{Timespec}
use libcsp_rust.Embassy.Clock.{get_s, millis_of, get_s-hosted_iff}
use libcsp_rust.Embassy.Semaphore.{spinning, bin_sem_wait, bin_sem_wait_ends}
use libcsp_rust.Base.{none}

bin_sem_wait_ends_example :
    bin_sem_wait false 5 (record { elapsed = 9; left = false } ∷ []) ≢ spinning
bin_sem_wait_ends_example =
    bin_sem_wait_ends false 5 [] (record { elapsed = 9; left = false }) []
      (inr (ground arith, omega arith))

-- 50 days after the start
abbrev late : Timespec
late = record { tv_sec = 4320000; tv_nsec = 0 }

get_s-hosted_example :
    (get_s (millis_of late) ≡ 4320000)
    × ((Clock.get_s late ≡ get_s (millis_of late)) ↔ (millis_of late < 2 ^ 32))
    × (2 ^ 32 ≤ millis_of late → Clock.get_s late < get_s (millis_of late))
get_s-hosted_example = get_s-hosted_iff late (omega arith) (omega arith)

-- libc has a block and makes the mutex, and the condition variable cannot be initialised.
abbrev no_cond : Answers
no_cond = record { block = some 4096; mutex_ok = true; cond_ok = false; sem_ok = true }

abbrev macos_layout : Layout
macos_layout = record { cond_at = 64; value_at = 112 }

abbrev one_block : Memory
one_block = record { blocks = 8 ∷ []; objects = [] }

csp_create-Balanced_example : Balanced macos_semaphore no_cond macos_layout none one_block
csp_create-Balanced_example =
    csp_create-Balanced macos_semaphore no_cond macos_layout none one_block (ground arith)
