-- ===== src/Base/Bits.antt =====
-- Machine words: `&` with a low mask, and `^`, from their digit recursion, at every width.
use Prim.Native.Nat.{
  ℕ, zero, suc, ◌+◌, ◌-◌, ◌*◌, ◌/◌, ◌%◌, ◌^◌, ◌≤◌, ◌<◌, min, bit_and, bit_xor, digits, bitwise,
  differ, bit_and-bitwise, bit_xor-bitwise,
}
use mathlib.Core.Path.{◌≡◌, refl, ap, ap₂}
use native.Mathlib.Omega.{arith}
use native.Mathlib.Nat.{
  pow-suc, one-le-pow, div-one, mod-eq-sub-div-mul, div-mul-le_self, mod-one, mul_comm, mod-lt,
  mod-eq_of_lt,
}

-- Any two bounds on the number of digits give the same digit recursion.
module _ (rest : ℕ → ℕ) (digit : ℕ → ℕ → ℕ) where
  digits_bound : (x y i j : ℕ) → x ≤ i → x ≤ j → digits rest digit i x y ≡ digits rest digit j x y
  digits_bound (suc x) y zero j hi hj = absurd (omega arith)
  digits_bound (suc x) y (suc i) zero hi hj = absurd (omega arith)
  digits_bound (suc x) y (suc i) (suc j) hi hj =
      let half = digits_bound (suc x / 2) (y / 2) i j (omega arith) (omega arith) in
      omega (arith, half)
  digits_bound zero y zero zero hi hj = refl
  digits_bound zero y zero (suc j) hi hj = refl
  digits_bound zero y (suc i) zero hi hj = refl
  digits_bound zero y (suc i) (suc j) hi hj = refl

  lowest_digit :
      (x y : ℕ)
      → bitwise rest digit (suc x) y
        ≡ bitwise rest digit (suc x / 2) (y / 2) * 2 + digit (suc x % 2) (y % 2)
  lowest_digit x y =
      let half = suc x / 2 in
      let e = digits_bound half (y / 2) x half (omega arith) (omega arith) in omega (arith, e)

bit_and_step : (x y : ℕ) → bit_and x y ≡ bit_and (x / 2) (y / 2) * 2 + min (x % 2) (y % 2)
bit_and_step (suc x) y = simp bit_and-bitwise (lowest_digit (λ t. 0) min x y)
bit_and_step zero y = simp bit_and-bitwise (omega arith)

differ_bits : (x y : ℕ) → x < 2 → y < 2 → differ x y ≡ (x + y) % 2
differ_bits zero zero h k = refl
differ_bits zero (suc zero) h k = refl
differ_bits (suc zero) zero h k = refl
differ_bits (suc zero) (suc zero) h k = refl
differ_bits zero (suc (suc y)) h k = absurd (omega arith)
differ_bits (suc zero) (suc (suc y)) h k = absurd (omega arith)
differ_bits (suc (suc x)) y h k = absurd (omega arith)

pub bit_xor_step : (a b : ℕ) → bit_xor a b ≡ bit_xor (a / 2) (b / 2) * 2 + (a + b) % 2
bit_xor_step zero b = simp bit_xor-bitwise (omega arith)
bit_xor_step (suc a) b = omega (
  arith,
  bit_xor-bitwise (suc a) b,
  bit_xor-bitwise (suc a / 2) (b / 2),
  lowest_digit (λ y. y) differ a b,
  differ_bits (suc a % 2) (b % 2) (omega arith) (omega arith),
)

pow_pos : (k : ℕ) → 0 < 2 ^ k
pow_pos k = one-le-pow k 2 (omega arith)

-- Quotient and remainder by an even number, digit by digit.
div-double : (a m : ℕ) → 0 < m → a / (2 * m) ≡ a / 2 / m
div-double a m h = grind arith

mod-double : (a m : ℕ) → 0 < m → a % (2 * m) ≡ 2 * (a / 2 % m) + a % 2
mod-double a m h = omega (
  arith,
  mod-eq-sub-div-mul a (2 * m),
  mod-eq-sub-div-mul (a / 2) m,
  div-mul-le_self (a / 2) m,
  ap (λ (t : ℕ). t * m) (div-double a m h),
)

bit_and-zero_below : (bound x : ℕ) → x ≤ bound → bit_and x 0 ≡ 0
bit_and-zero_below zero x le = ap (λ t. bit_and t 0) (le_zero x le)
  where
    le_zero : (n : ℕ) → n ≤ 0 → n ≡ 0
    le_zero n z = omega arith
bit_and-zero_below (suc bound) x le =
    let half = bit_and-zero_below bound (x / 2) (omega arith) in
    omega (arith, bit_and_step x 0, half)

bit_and-zero : (x : ℕ) → bit_and x 0 ≡ 0
bit_and-zero x = bit_and-zero_below x x (omega arith)

div_suc : (k a : ℕ) → a / 2 ^ suc k ≡ a / 2 / 2 ^ k
div_suc k a = rw (pow-suc, mul_comm (2 ^ k) 2) (div-double a (2 ^ k) (pow_pos k))

mod_suc : (k a : ℕ) → a % 2 ^ suc k ≡ 2 * (a / 2 % 2 ^ k) + a % 2
mod_suc k a = rw (pow-suc, mul_comm (2 ^ k) 2) (mod-double a (2 ^ k) (pow_pos k))

half_mask : (k : ℕ) → (2 ^ suc k - 1) / 2 ≡ 2 ^ k - 1
half_mask k = omega (arith, pow-suc 2 k, pow_pos k)

-- A mask of `k` low bits is the remainder by `2 ^ k`.
pub bit_and_mask : (k a : ℕ) → bit_and a (2 ^ k - 1) ≡ a % 2 ^ k
bit_and_mask zero a = omega (arith, bit_and-zero a)
bit_and_mask (suc k) a = omega (
  arith,
  pow-suc 2 k,
  pow_pos k,
  bit_and_step a (2 ^ suc k - 1),
  bit_and_mask k (a / 2),
  mod_suc k a,
  ap (λ (t : ℕ). bit_and (a / 2) t) (half_mask k),
)

bit_xor_self_fuel : (n a : ℕ) → a ≤ n → bit_xor a a ≡ 0
bit_xor_self_fuel n zero h = refl
bit_xor_self_fuel zero (suc a) h = absurd (omega arith)
bit_xor_self_fuel (suc n) (suc a) h =
    omega (arith, bit_xor_step (suc a) (suc a), bit_xor_self_fuel n (suc a / 2) (omega arith))

pub bit_xor_self : (a : ℕ) → bit_xor a a ≡ 0
bit_xor_self a = bit_xor_self_fuel a a (omega arith)

bit_xor-half : (a b : ℕ) → bit_xor a b / 2 ≡ bit_xor (a / 2) (b / 2)
bit_xor-half a b = omega (arith, bit_xor_step a b)

half-mod : (k a : ℕ) → a % 2 ^ suc k / 2 ≡ a / 2 % 2 ^ k
half-mod k a = omega (arith, mod_suc k a)

-- `^` acts on the high and on the low bits apart.
pub bit_xor-div : (k a b : ℕ) → bit_xor a b / 2 ^ k ≡ bit_xor (a / 2 ^ k) (b / 2 ^ k)
bit_xor-div zero a b = simp div-one
bit_xor-div (suc k) a b = omega (
  arith,
  pow-suc 2 k,
  bit_xor_step a b,
  bit_xor-div k (a / 2) (b / 2),
  div-double (bit_xor a b) (2 ^ k) (pow_pos k),
  ap₂ bit_xor (div_suc k a) (div_suc k b),
  div_suc k (bit_xor a b),
  ap (λ (t : ℕ). t / 2 ^ k) (bit_xor-half a b),
)

pub bit_xor-mod : (k a b : ℕ) → bit_xor a b % 2 ^ k ≡ bit_xor (a % 2 ^ k) (b % 2 ^ k)
bit_xor-mod zero a b = simp mod-one
bit_xor-mod (suc k) a b = omega (
  arith,
  mod_suc k (bit_xor a b),
  mod_suc k a,
  mod_suc k b,
  bit_xor_step a b,
  ap (λ (t : ℕ). t % 2 ^ k) (bit_xor-half a b),
  bit_xor-mod k (a / 2) (b / 2),
  bit_xor_step (a % 2 ^ suc k) (b % 2 ^ suc k),
  ap₂ bit_xor (half-mod k a) (half-mod k b),
)

bit_xor_cancel_fuel : (n a b c : ℕ) → a ≤ n → b ≤ n → bit_xor a c ≡ bit_xor b c → a ≡ b
bit_xor_cancel_fuel zero a b c p q e = omega arith
bit_xor_cancel_fuel (suc n) a b c p q e = omega (
  arith,
  bit_xor_step a c,
  bit_xor_step b c,
  bit_xor_cancel_fuel n (a / 2) (b / 2) (c / 2) (omega arith) (omega arith)
      (omega (arith, bit_xor_step a c, bit_xor_step b c)),
)

-- `^` by one value can be undone.
pub bit_xor_cancel : (a b c : ℕ) → bit_xor a c ≡ bit_xor b c → a ≡ b
bit_xor_cancel a b c = bit_xor_cancel_fuel (a + b) a b c (omega arith) (omega arith)

-- `^` stays within a word.
pub bit_xor-lt : (k a b : ℕ) → a < 2 ^ k → b < 2 ^ k → bit_xor a b < 2 ^ k
bit_xor-lt k a b p q = omega (
  arith,
  mod-lt (bit_xor a b) {m = 2 ^ k} (pow_pos k),
  bit_xor-mod k a b,
  ap₂ bit_xor (mod-eq_of_lt p) (mod-eq_of_lt q),
)
