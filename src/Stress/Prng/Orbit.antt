-- ===== src/Stress/Prng/Orbit.antt =====
-- The generator never loses a state and never reaches 0.
use Prim.Native.Nat.{bit_xor}
use libcsp_rust.Base.{ℕ, zero, suc, ◌*◌, ◌/◌, ◌%◌, ◌^◌, ◌<◌, ◌≡◌, refl, arith, ap, sym, ◌∙◌}
use libcsp_rust.Base.Bits.{bit_xor-div, bit_xor-mod, bit_xor-lt, bit_xor_cancel}
use libcsp_rust.Stress.Prng.{shl_step, shr_step, new, next}

-- The 15 high bits of a word pass the right shift unchanged.
shr17_high : (a : ℕ) → a < 2 ^ 32 → bit_xor (a / 2 ^ 17) 0 ≡ shr_step 17 a / 2 ^ 17
shr17_high a h =
    let top : a / 2 ^ 17 / 2 ^ 17 ≡ 0 = omega arith in
    ap (bit_xor (a / 2 ^ 17)) (sym top) ∙ sym (bit_xor-div 17 a (a / 2 ^ 17))

shr17-injective : (a b : ℕ) → a < 2 ^ 32 → b < 2 ^ 32 → shr_step 17 a ≡ shr_step 17 b → a ≡ b
shr17-injective a b h k e =
    let high : a / 2 ^ 17 ≡ b / 2 ^ 17 =
      bit_xor_cancel (a / 2 ^ 17) (b / 2 ^ 17) 0
        (shr17_high a h ∙ ap (λ x. x / 2 ^ 17) e ∙ sym (shr17_high b k)) in
    bit_xor_cancel a b (a / 2 ^ 17) (e ∙ ap (bit_xor b) (sym high))

-- If two words agree below bit `n` after `x ^= y`, and the words put on them do, then they do.
low_bits :
    (n a b y z : ℕ) → bit_xor a y ≡ bit_xor b z → y % 2 ^ n ≡ z % 2 ^ n → a % 2 ^ n ≡ b % 2 ^ n
low_bits n a b y z e h = bit_xor_cancel (a % 2 ^ n) (b % 2 ^ n) (y % 2 ^ n) (
    sym (bit_xor-mod n a y)
    ∙ ap (λ x. x % 2 ^ n) e
    ∙ bit_xor-mod n b z
    ∙ ap (bit_xor (b % 2 ^ n)) (sym h))

shl13-injective : (a b : ℕ) → a < 2 ^ 32 → b < 2 ^ 32 → shl_step 13 a ≡ shl_step 13 b → a ≡ b
shl13-injective a b h k e =
    let y = a * 2 ^ 13 % 2 ^ 32 in
    let z = b * 2 ^ 13 % 2 ^ 32 in
    let p13 = low_bits 13 a b y z e (omega arith) in
    let p26 = low_bits 26 a b y z e (omega arith) in
    let yz : y ≡ z = omega arith in bit_xor_cancel a b y (e ∙ ap (bit_xor b) (sym yz))

shl5-injective : (a b : ℕ) → a < 2 ^ 32 → b < 2 ^ 32 → shl_step 5 a ≡ shl_step 5 b → a ≡ b
shl5-injective a b h k e =
    let y = a * 2 ^ 5 % 2 ^ 32 in
    let z = b * 2 ^ 5 % 2 ^ 32 in
    let p5 = low_bits 5 a b y z e (omega arith) in
    let p10 = low_bits 10 a b y z e (omega arith) in
    let p15 = low_bits 15 a b y z e (omega arith) in
    let p20 = low_bits 20 a b y z e (omega arith) in
    let p25 = low_bits 25 a b y z e (omega arith) in
    let p30 = low_bits 30 a b y z e (omega arith) in
    let yz : y ≡ z = omega arith in bit_xor_cancel a b y (e ∙ ap (bit_xor b) (sym yz))

shl_step-lt : (k x : ℕ) → x < 2 ^ 32 → shl_step k x < 2 ^ 32
shl_step-lt k x h = bit_xor-lt 32 x (x * 2 ^ k % 2 ^ 32) h (omega arith)

shr17-lt : (x : ℕ) → x < 2 ^ 32 → shr_step 17 x < 2 ^ 32
shr17-lt x h = bit_xor-lt 32 x (x / 2 ^ 17) h (omega arith)

next-lt : (s : ℕ) → s < 2 ^ 32 → next s < 2 ^ 32
unfolding next
next-lt s h =
    shl_step-lt 5 (shr_step 17 (shl_step 13 s)) (shr17-lt (shl_step 13 s) (shl_step-lt 13 s h))

-- No two 32-bit states have the same successor.
pub next-injective : (a b : ℕ) → a < 2 ^ 32 → b < 2 ^ 32 → next a ≡ next b → a ≡ b
unfolding next
next-injective a b h k e =
    let a1 = shl_step-lt 13 a h in
    let b1 = shl_step-lt 13 b k in
    let a2 = shr17-lt (shl_step 13 a) a1 in
    let b2 = shr17-lt (shl_step 13 b) b1 in
    shl13-injective a b h k (
      shr17-injective (shl_step 13 a) (shl_step 13 b) a1 b1
        (shl5-injective (shr_step 17 (shl_step 13 a)) (shr_step 17 (shl_step 13 b)) a2 b2 e))

next-zero : next 0 ≡ 0
unfolding next
next-zero = refl

unfoldable pub iterate : ℕ → ℕ → ℕ
iterate zero s = s
iterate (suc n) s = next (iterate n s)

next-pos : (s : ℕ) → s < 2 ^ 32 → 0 < s → 0 < next s
next-pos s h p = elim-pos (next s) refl
  where
    elim-pos : (t : ℕ) → next s ≡ t → 0 < t
    elim-pos zero e = absurd (omega (arith, next-injective s 0 h (omega arith) (e ∙ sym next-zero)))
    elim-pos (suc t) e = omega arith

-- Whatever the seed, a generator is never in state 0, however often it is used, and stays within 32
-- bits.
pub new-iterate_pos :
    (n seed : ℕ) → seed < 2 ^ 32 → (0 < iterate n (new seed)) × (iterate n (new seed) < 2 ^ 32)
unfolding iterate new
new-iterate_pos zero seed h = ground arith
new-iterate_pos (suc n) seed h =
    let (p, l) = new-iterate_pos n seed h in
    (next-pos (iterate n (new seed)) l p, next-lt (iterate n (new seed)) l)
