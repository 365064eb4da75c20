-- ===== src/Stress/Prng.antt =====
-- `Prng`, a xorshift generator on 32-bit words, and the buffers that it fills.
pub mod Orbit
pub mod Fill
pub mod Prefix
use Prim.Native.Nat.{bit_xor}
use libcsp_rust.Base.{
  ℕ, zero, suc, ◌+◌, ◌-◌, ◌*◌, ◌/◌, ◌%◌, ◌^◌, List, [], ◌∷◌, ◌++◌, ◌==◌, if◌then◌else◌, length,
  take, ltb,
}

-- `x ^= x << k` and `x ^= x >> k` on u32.
abbrev pub shl_step : ℕ → ℕ → ℕ
shl_step k x = bit_xor x (x * 2 ^ k % 2 ^ 32)

abbrev pub shr_step : ℕ → ℕ → ℕ
shr_step k x = bit_xor x (x / 2 ^ k)

unfoldable pub scramble : ℕ → ℕ
scramble x = shl_step 5 (shr_step 17 (shl_step 13 x))

-- The state is the word itself.
unfoldable pub new : ℕ → ℕ
new seed = if seed == 0 then 1 else seed

-- The value returned is the new state.
unfoldable pub next : ℕ → ℕ
unfolding scramble
next state = scramble state

unfoldable pub next_with_seed : ℕ → ℕ
unfolding scramble
next_with_seed seed = scramble (if seed == 0 then 1 else seed)

-- `u32::to_le_bytes`
abbrev pub to_le_bytes : ℕ → List ℕ
to_le_bytes w = (w % 256) ∷ (w / 256 % 256) ∷ (w / 2 ^ 16 % 256) ∷ (w / 2 ^ 24 % 256) ∷ []

-- The words for the full chunks of four bytes, and the state after them.
unfoldable pub fill_chunks : ℕ → ℕ → List ℕ × ℕ
fill_chunks zero state = ([], state)
fill_chunks (suc chunks) state =
    let state' = next state in
    let (bytes, last) = fill_chunks chunks state' in (to_le_bytes state' ++ bytes, last)

-- `fill` on a buffer of `len` bytes: its new content and the state left.
unfoldable pub fill : ℕ → ℕ → List ℕ × ℕ
fill state len =
    let (bytes, state') = fill_chunks (len / 4) state in
    let remaining = len % 4 in
    if ltb 0 remaining
    then (let w = next state' in (bytes ++ take remaining (to_le_bytes w), w))
    else (bytes, state')
