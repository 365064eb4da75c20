-- ===== src/TestArch/Clock.antt =====
-- The times of src/arch/test_arch.rs: the clock of the hosted backend, its sleep and the deadlines of its
-- waits. What libc's clock gives is an input; seconds are not negative.
use libcsp_rust.Base.{ℕ, ◌+◌, ◌-◌, ◌*◌, ◌/◌, ◌%◌, ◌^◌, ◌≤◌, ◌<◌, ◌≡◌, leb, if◌then◌else◌, arith}

-- `timespec`
pub record Timespec : Type 0 where
  pub tv_sec : ℕ
  pub tv_nsec : ℕ

-- `now` is what `clock_gettime` stores; the sums and products are of u32.
unfoldable pub get_ms : Timespec → ℕ
get_ms now = (now.tv_sec % 2 ^ 32 * 1000 % 2 ^ 32 + now.tv_nsec / 1000000 % 2 ^ 32) % 2 ^ 32

unfoldable pub get_s : Timespec → ℕ
unfolding get_ms
get_s now = get_ms now / 1000

-- What `sleep_ms` hands to `nanosleep`.
unfoldable pub sleep_ms : ℕ → Timespec
sleep_ms ms = record { tv_sec = ms / 1000; tv_nsec = ms % 1000 * 1000000 }

unfoldable pub carried : Timespec → Timespec
carried ts =
    if leb 1000000000 ts.tv_nsec
    then record { tv_sec = ts.tv_sec + 1; tv_nsec = ts.tv_nsec - 1000000000 }
    else ts

-- `now` is what `clock_gettime` stores.
unfoldable pub deadline : Timespec → ℕ → Timespec
unfolding carried
deadline now timeout = carried (record {
  tv_sec = now.tv_sec + timeout / 1000;
  tv_nsec = now.tv_nsec + timeout % 1000 * 1000000;
})

-- Where the clock gives less than 10 ^ 9 nanoseconds, the deadline is `timeout` milliseconds later, it
-- has less than 10 ^ 9 nanoseconds again, and no sum of nanoseconds exceeds a signed 32-bit long.
pub deadline_lem :
    (now : Timespec) (timeout : ℕ)
    → now.tv_nsec < 1000000000
    → ((deadline now timeout).tv_nsec < 1000000000)
      × ((deadline now timeout).tv_sec * 1000000000 + (deadline now timeout).tv_nsec
          ≡ now.tv_sec * 1000000000 + now.tv_nsec + timeout * 1000000)
      × (now.tv_nsec + timeout % 1000 * 1000000 < 2 ^ 31)
unfolding deadline
deadline_lem now timeout h = ground arith

-- The milliseconds of the clock, cut to 32 bits, with no error from the steps that wrap. The seconds
-- are those of the cut milliseconds, so they start again at 0 after 4294967.
pub get_ms_lem :
    (now : Timespec)
    → now.tv_nsec < 1000000000
    → (get_ms now ≡ (now.tv_sec * 1000 + now.tv_nsec / 1000000) % 2 ^ 32) × (get_s now ≤ 4294967)
unfolding get_ms get_s
get_ms_lem now h = omega arith

-- A sleep lasts exactly its milliseconds, in a form that `nanosleep` takes.
pub sleep_ms_lem :
    (ms : ℕ)
    → ((sleep_ms ms).tv_sec * 1000000000 + (sleep_ms ms).tv_nsec ≡ ms * 1000000)
      × ((sleep_ms ms).tv_nsec < 1000000000)
unfolding sleep_ms
sleep_ms_lem ms = omega arith
