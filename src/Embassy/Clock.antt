-- ===== src/Embassy/Clock.antt =====
-- The clock of embassy-example/src/lib.rs, from the milliseconds since the start that embassy counts in
-- 64 bits, and how it differs from the clock of src/arch/test_arch.rs.
use libcsp_rust.Base.{ℕ, ◌/◌, ◌%◌, ◌*◌, ◌^◌, ◌<◌, ◌≤◌, ◌+◌, ◌≡◌, ◌↔◌, ap, arith}
use libcsp_rust.TestArch.Clock
use libcsp_rust.TestArch.Clock.{Timespec, get_ms_lem}

unfoldable pub get_ms : ℕ → ℕ
get_ms millis = millis % 2 ^ 32

unfoldable pub get_s : ℕ → ℕ
get_s millis = millis / 1000 % 2 ^ 32

-- The milliseconds of what `clock_gettime` stores
abbrev pub millis_of : Timespec → ℕ
millis_of now = now.tv_sec * 1000 + now.tv_nsec / 1000000

-- Below 2 ^ 32 seconds the bare-metal backend has the true seconds; the hosted backend has the same
-- exactly while the milliseconds are below 2 ^ 32, for 49.7 days, and from 2 ^ 32 milliseconds on
-- it has fewer.
pub get_s-hosted_iff :
    (now : Timespec)
    → now.tv_nsec < 1000000000
    → now.tv_sec < 2 ^ 32
    → (get_s (millis_of now) ≡ now.tv_sec)
      × ((Clock.get_s now ≡ get_s (millis_of now)) ↔ (millis_of now < 2 ^ 32))
      × (2 ^ 32 ≤ millis_of now → Clock.get_s now < get_s (millis_of now))
unfolding get_s Clock.get_s
get_s-hosted_iff now h k =
    let bare : millis_of now / 1000 % 2 ^ 32 ≡ now.tv_sec = omega arith in
    let (cut, small) = get_ms_lem now h in
    let part : Clock.get_s now ≡ millis_of now % 2 ^ 32 / 1000 = ap (λ n. n / 1000) cut in
    (
      bare,
      (λ e. omega (arith, e, part, bare), λ l. omega (arith, l, part, bare)),
      λ l. omega (arith, l, part, bare),
    )
