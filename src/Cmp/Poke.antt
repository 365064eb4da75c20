-- ===== src/Cmp/Poke.antt =====
-- What a poke sends.
use libcsp_rust.Base.{
  ℕ, ◌+◌, ◌%◌, ◌^◌, ◌≡◌, ◌≤◌, ◌<◌, List, [], ◌∷◌, ◌++◌, true, ltb, lt→ltb, if◌then◌else◌, length,
  drop, replicate, length-replicate, length-append, arith, refl, ap, Bool-cases, inl, inr,
}
use libcsp_rust.Base.Int.{ℤ}
use libcsp_rust.Error.{invalid_argument, err}
use libcsp_rust.Packet.{value}
use libcsp_rust.Arch.CString.Spec.{set-append}
use libcsp_rust.Arch.CString.Copy.{snoc, length-snoc}
use libcsp_rust.Cmp.{Message, fill_data, answered, send, poke}

fill_from :
    (pre rest bytes : List ℕ) (i : ℕ)
    → i ≡ length pre
    → length bytes ≤ length rest
    → fill_data (pre ++ rest) i bytes ≡ value (pre ++ (bytes ++ drop (length bytes) rest))
unfolding fill_data
fill_from pre rest [] i e h = refl
fill_from pre [] (b ∷ bytes) i e h = absurd (omega arith)
fill_from pre (x ∷ rest) (b ∷ bytes) i e h =
    let within : ltb i (length (pre ++ (x ∷ rest))) ≡ true =
      lt→ltb _ _ (omega (arith, length-append pre (x ∷ rest))) in
    let ih = fill_from (pre ++ (b ∷ [])) rest bytes (i + 1) (length-snoc pre b i e) (omega arith) in
    rw (within, set-append pre i x b rest e, ← snoc pre b rest, ih)
      (ap value (snoc pre b (bytes ++ drop (length bytes) rest)))

-- Where the largest length is below 256 and fits the message's array: data shorter than 2 ^ 32 bytes is
-- refused without a call if it is longer than that, and is otherwise sent with its length, followed
-- by zeros, in a message of 7 bytes more; nothing panics.
pub poke_lem :
    (max_len array_size : ℕ) (csp_cmp : Message → ℤ × List ℕ) (address : ℕ) (bytes : List ℕ)
    → max_len < 256
    → max_len ≤ array_size
    → length bytes < 2 ^ 32
    → poke max_len array_size csp_cmp address bytes
      ≡ value (
          if ltb max_len (length bytes)
          then err invalid_argument
          else answered
              (csp_cmp (record {
                addr = address;
                len = length bytes;
                data' = bytes ++ drop (length bytes) (replicate array_size 0);
                size = 7 + length bytes;
              })).0)
unfolding poke send
poke_lem max_len array_size csp_cmp address bytes m a n =
    let whole : length bytes % 2 ^ 32 ≡ length bytes = omega arith in
    elim (Bool-cases (ltb max_len (length bytes))) [
      | inl long ↦ rw (whole, long) refl
      | inr short ↦
          let fits : length bytes ≤ max_len = ground arith in
          let byte : length bytes % 2 ^ 8 ≡ length bytes = omega arith in
          let room : length bytes ≤ length (replicate array_size 0) =
            omega (arith, length-replicate {A = ℕ} array_size 0) in
          let filled = fill_from [] (replicate array_size 0) bytes 0 refl room in
          rw (whole, short, filled, byte) refl
    ]
