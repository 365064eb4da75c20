-- ===== src/Stress/Payload.antt =====
-- The payload of the stress test: how stress_tx.rs makes it from the counter, and how stress_rx.rs
-- checks it.
use Prim.Native.Nat.{bit_xor}
use libcsp_rust.Base.{
  ℕ, ◌+◌, ◌-◌, ◌*◌, ◌/◌, ◌%◌, ◌^◌, ◌<◌, ◌≤◌, ◌≡◌, refl, arith, List, [], ◌∷◌, ◌++◌, length, take,
  drop, Bool, true, false, ◌==◌, ◌&&◌, if◌then◌else◌, ltb, write_at, read_at, length-append,
  take-append, ap, ◌∙◌, replicate, length-replicate, write_at-zero, length-drop,
}
use libcsp_rust.Stress.Prng.{new, fill}
use libcsp_rust.Stress.Prng.Fill.{length-fill}

-- `PRNG_SEED`
abbrev pub prng_seed : ℕ
prng_seed = 0x12345678

-- `u64::to_le_bytes` and `u64::from_le_bytes`.
abbrev pub u64_to_le_bytes : ℕ → List ℕ
u64_to_le_bytes n =
    (n % 256)
    ∷ (n / 2 ^ 8 % 256)
    ∷ (n / 2 ^ 16 % 256)
    ∷ (n / 2 ^ 24 % 256)
    ∷ (n / 2 ^ 32 % 256)
    ∷ (n / 2 ^ 40 % 256)
    ∷ (n / 2 ^ 48 % 256)
    ∷ (n / 2 ^ 56 % 256)
    ∷ []

abbrev pub u64_from_le_bytes : List ℕ → ℕ
u64_from_le_bytes [] = 0
u64_from_le_bytes (b ∷ bytes) = b + 256 * u64_from_le_bytes bytes

-- The sender's buffer of `size` bytes: the counter, then the generator's bytes.
unfoldable pub make_payload : ℕ → ℕ → List ℕ
make_payload count size =
    let data' = write_at (replicate size 0) 0 (u64_to_le_bytes count) in
    take 8 data' ++ (fill (new (bit_xor prng_seed (count % 2 ^ 32))) (length (drop 8 data'))).0

abbrev pub eq_bytes : List ℕ → List ℕ → Bool
eq_bytes [] [] = true
eq_bytes [] (y ∷ ys) = false
eq_bytes (x ∷ xs) [] = false
eq_bytes (x ∷ xs) (y ∷ ys) = x == y && eq_bytes xs ys

-- What the receiver makes of the bytes: too short, or the counter and whether they are as expected.
pub data Verdict : Type 0 where
  too_short : Verdict
  checked : ℕ → Bool → Verdict

unfoldable pub check_payload : List ℕ → Verdict
check_payload bytes =
    if ltb (length bytes) 8
    then too_short
    else (let count_buf = read_at bytes 0 8 in
        let pkt_count = u64_from_le_bytes count_buf in
        let expected = write_at (replicate (length bytes) 0) 0 count_buf in
        let filled =
          take 8 expected
          ++ (fill (new (bit_xor prng_seed (pkt_count % 2 ^ 32))) (length (drop 8 expected))).0 in
        checked pkt_count (eq_bytes bytes filled))

eq_bytes_refl : (xs : List ℕ) → eq_bytes xs xs ≡ true
eq_bytes_refl [] = refl
eq_bytes_refl (x ∷ xs) = ground (arith, eq_bytes_refl xs)

u64_roundtrip : (n : ℕ) → n < 2 ^ 64 → u64_from_le_bytes (u64_to_le_bytes n) ≡ n
u64_roundtrip n h = omega arith

-- Overlaying eight bytes on a buffer of zeros, as the list that it is.
overlay :
    (size : ℕ) (head : List ℕ)
    → length head ≡ 8
    → 8 ≤ size
    → write_at (replicate size 0) 0 head ≡ head ++ drop 8 (replicate size 0)
overlay size head e h =
    write_at-zero (replicate size 0) head (omega (arith, length-replicate {A = ℕ} size 0))
    ∙ ap (λ n. head ++ drop n (replicate size 0)) e

pub make_payload_eq :
    (count size : ℕ)
    → 8 ≤ size
    → make_payload count size
      ≡ u64_to_le_bytes count ++ (fill (new (bit_xor prng_seed (count % 2 ^ 32))) (size - 8)).0
unfolding make_payload
make_payload_eq count size h = rw (overlay size (u64_to_le_bytes count) refl h) (
    ap (λ n. u64_to_le_bytes count ++ (fill (new (bit_xor prng_seed (count % 2 ^ 32))) n).0)
      (omega (arith, length-drop 8 (replicate {A = ℕ} size 0), length-replicate {A = ℕ} size 0)))

pub length-make_payload : (count size : ℕ) → 8 ≤ size → length (make_payload count size) ≡ size
length-make_payload count size h =
    let s = new (bit_xor prng_seed (count % 2 ^ 32)) in
    rw (make_payload_eq count size h) (
      omega (
        arith,
        length-append (u64_to_le_bytes count) (fill s (size - 8)).0,
        length-fill s (size - 8),
      ))

read_counter :
    (count size : ℕ) → 8 ≤ size → read_at (make_payload count size) 0 8 ≡ u64_to_le_bytes count
read_counter count size h =
    let s = new (bit_xor prng_seed (count % 2 ^ 32)) in
    rw (make_payload_eq count size h)
      (take-append 8 (u64_to_le_bytes count) (fill s (size - 8)).0 refl)

-- What the receiver regenerates from the sender's counter.
regenerate :
    (count size : ℕ)
    → let expected = write_at (replicate size 0) 0 (u64_to_le_bytes count) in
      take 8 expected
        ++ (fill (new (bit_xor prng_seed (count % 2 ^ 32))) (length (drop 8 expected))).0
      ≡ make_payload count size
unfolding make_payload
regenerate count size = refl

-- A payload of at least 8 bytes that arrives unchanged is accepted, with the sender's counter.
pub check_payload-make_payload :
    (count size : ℕ)
    → count < 2 ^ 64
    → 8 ≤ size
    → check_payload (make_payload count size) ≡ checked count true
unfolding check_payload
check_payload-make_payload count size c h =
    let long : ltb (length (make_payload count size)) 8 ≡ false =
      ground (arith, length-make_payload count size h) in
    rw (long, read_counter count size h, u64_roundtrip count c, length-make_payload count size h)
      (ap (checked count) (
        ap (eq_bytes (make_payload count size)) (regenerate count size)
        ∙ eq_bytes_refl (make_payload count size)))
