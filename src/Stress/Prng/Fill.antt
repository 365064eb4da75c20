-- ===== src/Stress/Prng/Fill.antt =====
-- What `fill` writes, and the check that the receiver of the stress test makes with it.
use libcsp_rust.Base.{
  ℕ, zero, suc, ◌*◌, ◌/◌, ◌%◌, ◌<◌, ◌≡◌, refl, arith, List, [], ◌∷◌, length, take, length-append,
  length-take, All, All-append,
}
use libcsp_rust.Stress.Prng.{to_le_bytes, fill_chunks, fill, next}

length-fill_chunks : (chunks state : ℕ) → length (fill_chunks chunks state).0 ≡ 4 * chunks
unfolding fill_chunks
length-fill_chunks zero state = refl
length-fill_chunks (suc chunks) state = omega (
  arith,
  length-fill_chunks chunks (next state),
  length-append (to_le_bytes (next state)) (fill_chunks chunks (next state)).0,
)

abbrev IsByte : ℕ → Type 0
IsByte b = b < 256

le_bytes : (w : ℕ) → All IsByte (to_le_bytes w)
le_bytes w = omega arith

take-All {ℓ κ} : {A : Type ℓ} (P : A → Type κ) (n : ℕ) (xs : List A) → All P xs → All P (take n xs)
take-All P zero xs h = tt
take-All P (suc n) [] h = tt
take-All P (suc n) (x ∷ xs) h = (h.0, take-All P n xs h.1)

fill_chunks-bytes : (chunks state : ℕ) → All IsByte (fill_chunks chunks state).0
unfolding fill_chunks
fill_chunks-bytes zero state = tt
fill_chunks-bytes (suc chunks) state =
    All-append IsByte (to_le_bytes (next state)) (fill_chunks chunks (next state)).0
      (le_bytes (next state)) (fill_chunks-bytes chunks (next state))

-- `fill` writes every byte of the buffer and no more.
pub length-fill : (state len : ℕ) → length (fill state len).0 ≡ len
unfolding fill
length-fill state len =
    let (bytes, s) = fill_chunks (len / 4) state in
    ground (
      arith,
      length-fill_chunks (len / 4) state,
      length-append bytes (take (len % 4) (to_le_bytes (next s))),
      length-take (len % 4) (to_le_bytes (next s)),
    )
