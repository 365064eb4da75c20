-- ===== src/Stress/Truncate.antt =====
-- What the receivers of the stress test make of a payload whose end is lost.
use libcsp_rust.Base.{
  ℕ, ◌-◌, ◌%◌, ◌^◌, ◌≤◌, ◌<◌, ◌≡◌, refl, ◌∙◌, sym, ap, arith, List, ◌++◌, take, true,
}
use Prim.Native.Nat.{bit_xor, suc}
use libcsp_rust.Stress.Prng.{new, fill}
use libcsp_rust.Stress.Prng.Prefix.{take-fill}
use libcsp_rust.Stress.Payload.{
  prng_seed, u64_to_le_bytes, make_payload, make_payload_eq, check_payload, checked,
  check_payload-make_payload,
}

-- Eight more than `m`, counted one by one.
abbrev eight_more : ℕ → ℕ
eight_more m = suc (suc (suc (suc (suc (suc (suc (suc m)))))))

take-eight_more :
    (n m : ℕ) (rest : List ℕ)
    → take (eight_more m) (u64_to_le_bytes n ++ rest) ≡ u64_to_le_bytes n ++ take m rest
take-eight_more n m rest = refl

pub take-make_payload :
    (count size k : ℕ) → 8 ≤ k → k ≤ size → take k (make_payload count size) ≡ make_payload count k
take-make_payload count size k h l =
    let state = new (bit_xor prng_seed (count % 2 ^ 32)) in
    let e : k ≡ eight_more (k - 8) = omega arith in
    let long = make_payload_eq count size (omega arith) in
    ap (take k) long
    ∙ ap (λ n. take n (u64_to_le_bytes count ++ (fill state (size - 8)).0)) e
    ∙ take-eight_more count (k - 8) (fill state (size - 8)).0
    ∙ ap (λ t. u64_to_le_bytes count ++ t) (take-fill state (k - 8) (size - 8) (omega arith))
    ∙ sym (make_payload_eq count k h)

-- The test of the receivers does not see that the end of a payload is lost: whatever of it arrives, from
-- 8 bytes on, is accepted with the sender's counter.
pub check_payload-take :
    (count size k : ℕ)
    → count < 2 ^ 64
    → 8 ≤ k
    → k ≤ size
    → check_payload (take k (make_payload count size)) ≡ checked count true
check_payload-take count size k c h l =
    ap check_payload (take-make_payload count size k h l) ∙ check_payload-make_payload count k c h
