-- ===== src/Arch/Rand.antt =====
-- The generators that `export_arch!` (src/arch.rs) provides on targets without libc. `srand` does
-- nothing.
use Prim.Native.Nat.{bit_and}
use libcsp_rust.Base.{
  ℕ, ◌-◌, ◌^◌, ◌≡◌, ◌<◌, ◌%◌, Option, none, some, ◌==◌, if◌then◌else◌, arith, refl,
}
use libcsp_rust.Base.Bits.{bit_and_mask}
use libcsp_rust.Stress.Prng
use libcsp_rust.Stress.Prng.Orbit.{iterate, new-iterate_pos}

-- The three xorshift lines on the state that is not 0.
unfoldable pub advance : ℕ → ℕ
advance s = Prng.next (if s == 0 then 1 else s)

-- The value returned and the state stored.
unfoldable pub rand : ℕ → ℕ × ℕ
unfolding advance
rand state = let s = advance state in (bit_and s (2 ^ 31 - 1), s)

-- The null seed is `none`.
unfoldable pub rand_r : Option ℕ → ℕ × Option ℕ
unfolding advance
rand_r none = (0, none)
rand_r (some seed) = let s = advance seed in (bit_and s (2 ^ 31 - 1), some s)

-- From any 32-bit state, the number that `rand` returns is not negative as an i32 and is the low 31
-- bits of the state it stores, which is not 0 and has 32 bits; `rand_r` on that seed gives the same.
pub rand_lem :
    (state : ℕ)
    → state < 2 ^ 32
    → let (r, s) = rand state in
      (r < 2 ^ 31) × (r ≡ s % 2 ^ 31) × (0 < s) × (s < 2 ^ 32) × (rand_r (some state) ≡ (r, some s))
unfolding rand rand_r advance iterate Prng.new
rand_lem state h =
    let (p, l) = new-iterate_pos 1 state h in
    let m = bit_and_mask 31 (advance state) in (omega (arith, m), m, p, l, refl)
