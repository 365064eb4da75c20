-- ===== src/Stress/Prng/Prefix.antt =====
-- What `fill` writes to a shorter buffer is the start of what it writes to a longer one.
use libcsp_rust.Base.{
  ℕ, zero, suc, ◌/◌, ◌%◌, ◌≤◌, ◌≡◌, refl, ◌∙◌, ap, ap₂, sym, arith, List, ◌++◌, take, ltb,
  if◌then◌else◌, Bool-cases, inl, inr,
}
use libcsp_rust.Stress.Prng.{to_le_bytes, fill_chunks, fill, next}

-- `fill` on the words' count and the rest.
filled : ℕ → ℕ → ℕ → List ℕ
filled state chunks remaining =
    let (bytes, state') = fill_chunks chunks state in
    if ltb 0 remaining then bytes ++ take remaining (to_le_bytes (next state')) else bytes

fill-filled : (state len : ℕ) → (fill state len).0 ≡ filled state (len / 4) (len % 4)
unfolding fill filled
fill-filled state len = elim (Bool-cases (ltb 0 (len % 4))) [
  | inl e ↦ rw e refl
  | inr e ↦ rw e refl
]

filled-suc :
    (state chunks remaining : ℕ)
    → filled state (suc chunks) remaining
      ≡ to_le_bytes (next state) ++ filled (next state) chunks remaining
unfolding filled fill_chunks
filled-suc state chunks remaining = elim (Bool-cases (ltb 0 remaining)) [
  | inl e ↦ rw e refl
  | inr e ↦ rw e refl
]

fill-four :
    (state len : ℕ)
    → (fill state (suc (suc (suc (suc len))))).0
      ≡ to_le_bytes (next state) ++ (fill (next state) len).0
fill-four state len =
    let words : suc (suc (suc (suc len))) / 4 ≡ suc (len / 4) = omega arith in
    let rest : suc (suc (suc (suc len))) % 4 ≡ len % 4 = omega arith in
    let longer : (fill state (suc (suc (suc (suc len))))).0
        ≡ filled state (suc (len / 4)) (len % 4) =
      fill-filled state (suc (suc (suc (suc len)))) ∙ ap₂ (filled state) words rest in
    let shorter = ap (λ t. to_le_bytes (next state) ++ t) (fill-filled (next state) len) in
    longer ∙ filled-suc state (len / 4) (len % 4) ∙ sym shorter

pub take-fill : (state k n : ℕ) → k ≤ n → take k (fill state n).0 ≡ (fill state k).0
unfolding fill fill_chunks
take-fill state zero n h = refl
take-fill state (suc k) zero h = absurd (omega arith)
take-fill state (suc zero) (suc zero) h = refl
take-fill state (suc zero) (suc (suc zero)) h = refl
take-fill state (suc zero) (suc (suc (suc zero))) h = refl
take-fill state (suc (suc k)) (suc zero) h = absurd (omega arith)
take-fill state (suc (suc zero)) (suc (suc zero)) h = refl
take-fill state (suc (suc zero)) (suc (suc (suc zero))) h = refl
take-fill state (suc (suc (suc k))) (suc (suc zero)) h = absurd (omega arith)
take-fill state (suc (suc (suc zero))) (suc (suc (suc zero))) h = refl
take-fill state (suc (suc (suc (suc k)))) (suc (suc (suc zero))) h = absurd (omega arith)
take-fill state (suc zero) (suc (suc (suc (suc n)))) h = rw (fill-four state n) refl
take-fill state (suc (suc zero)) (suc (suc (suc (suc n)))) h = rw (fill-four state n) refl
take-fill state (suc (suc (suc zero))) (suc (suc (suc (suc n)))) h = rw (fill-four state n) refl
take-fill state (suc (suc (suc (suc k)))) (suc (suc (suc (suc n)))) h =
    rw (fill-four state n, fill-four state k)
      (ap (λ t. to_le_bytes (next state) ++ t) (take-fill (next state) k n (omega arith)))
