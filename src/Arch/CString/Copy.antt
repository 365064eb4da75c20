-- ===== src/Arch/CString/Copy.antt =====
-- `strncpy`, `strcpy` and `strnlen` against their descriptions.
use libcsp_rust.Base.{
  ℕ, zero, suc, ◌+◌, ◌<◌, ◌≤◌, min, List, [], ◌∷◌, ◌++◌, ◌≡◌, inl, inr, refl, arith, some, ◌==◌,
  length, drop, ap, ◌∙◌, append_assoc, length-append, Bool-cases, lt→ltb, ==_iff,
}
use libcsp_rust.Arch.CString.{
  ◌>>=◌, store, copy_chars, pad_zeros, strncpy, strcpy_loop, strcpy, strnlen_loop, strnlen,
}
use libcsp_rust.Arch.CString.Spec.{chars, HasNul, Readable, padded, get_elem?-append, set-append}

pub store-append :
    (pre : List ℕ) (i x v : ℕ) (rest : List ℕ)
    → i ≡ length pre
    → store (pre ++ (x ∷ rest)) i v ≡ some (pre ++ (v ∷ rest))
store-append pre i x v rest e =
    rw (lt→ltb i (length (pre ++ (x ∷ rest))) (omega (arith, length-append pre (x ∷ rest))))
      (ap some (set-append pre i x v rest e))

-- One more element of a prefix.
pub snoc {ℓ} :
    {A : Type ℓ} (pre : List A) (v : A) (rest : List A)
    → (pre ++ (v ∷ [])) ++ rest ≡ pre ++ (v ∷ rest)
snoc pre v rest = append_assoc pre (v ∷ []) rest

pub length-snoc {ℓ} :
    {A : Type ℓ} (pre : List A) (v : A) (i : ℕ) → i ≡ length pre → i + 1 ≡ length (pre ++ (v ∷ []))
length-snoc pre v i e = omega (arith, length-append pre (v ∷ []))

pad_zeros_lem :
    (left i : ℕ) (pre rest : List ℕ)
    → i ≡ length pre
    → left ≤ length rest
    → pad_zeros left i (pre ++ rest) ≡ some (pre ++ (padded left [] ++ drop left rest))
unfolding pad_zeros
pad_zeros_lem zero i pre rest e h = refl
pad_zeros_lem (suc left) i pre [] e h = absurd (omega arith)
pad_zeros_lem (suc left) i pre (y ∷ rest) e h =
    rw (store-append pre i y 0 rest e, ← snoc pre 0 rest)
      (pad_zeros_lem left (i + 1) (pre ++ (0 ∷ [])) rest (length-snoc pre 0 i e) (omega arith)
        ∙ ap some (snoc pre 0 (padded left [] ++ drop left rest)))

copy_lem :
    (left i : ℕ) (pre rest before src : List ℕ)
    → i ≡ length pre
    → i ≡ length before
    → left ≤ length rest
    → Readable left src
    → (copy_chars left i (pre ++ rest) (before ++ src) >>= λ r. pad_zeros r.0 r.1 r.2)
      ≡ some (pre ++ (padded left (chars src) ++ drop left rest))
unfolding copy_chars
copy_lem zero i pre rest before src e k h r = pad_zeros_lem zero i pre rest e h
copy_lem (suc left) i pre rest before [] e k h r = elim r [ ]
copy_lem (suc left) i pre [] before (c ∷ src) e k h r = absurd (omega arith)
copy_lem (suc left) i pre (y ∷ rest) before (c ∷ src) e k h r = elim (Bool-cases (c == 0)) [
  | inl nul ↦
      rw (get_elem?-append before i c src k, nul) (pad_zeros_lem (suc left) i pre (y ∷ rest) e h)
  | inr char ↦
      rw
        (
          get_elem?-append before i c src k,
          char,
          store-append pre i y c rest e,
          ← snoc pre c rest,
          ← snoc before c src,
        )
        (copy_lem left (i + 1) (pre ++ (c ∷ [])) rest (before ++ (c ∷ [])) src
            (length-snoc pre c i e) (length-snoc before c i k) (omega arith) (ground arith)
          ∙ ap some (snoc pre c (padded left (chars src) ++ drop left rest)))
]

-- Into a destination of at least `n` bytes, `strncpy` writes exactly `n`: the characters before the
-- source's NUL, cut or padded with NUL. It reads the source no further than its NUL or `n` bytes.
pub strncpy_lem :
    (dest src : List ℕ) (n : ℕ)
    → n ≤ length dest
    → Readable n src
    → strncpy dest src n ≡ some (padded n (chars src) ++ drop n dest)
unfolding strncpy
strncpy_lem dest src n h r = copy_lem n 0 [] dest [] src refl refl h r

strcpy_loop_lem :
    (fuel i : ℕ) (pre rest before src : List ℕ)
    → i ≡ length pre
    → i ≡ length before
    → length (chars src) < length rest
    → length (chars src) < fuel
    → HasNul src
    → strcpy_loop fuel i (pre ++ rest) (before ++ src)
      ≡ some (pre ++ (chars src ++ (0 ∷ drop (suc (length (chars src))) rest)))
unfolding strcpy_loop
strcpy_loop_lem zero i pre rest before src e k h f n = absurd (omega arith)
strcpy_loop_lem (suc fuel) i pre rest before [] e k h f n = elim n [ ]
strcpy_loop_lem (suc fuel) i pre [] before (c ∷ src) e k h f n = absurd (omega arith)
strcpy_loop_lem (suc fuel) i pre (y ∷ rest) before (c ∷ src) e k h f n =
    elim (Bool-cases (c == 0)) [
      | inl nul ↦
          rw
            (
              get_elem?-append before i c src k,
              store-append pre i y c rest e,
              nul,
              (==_iff c 0).0 nul,
            )
            refl
      | inr char ↦
          rw
            (
              get_elem?-append before i c src k,
              store-append pre i y c rest e,
              char,
              ← snoc pre c rest,
              ← snoc before c src,
            )
            (strcpy_loop_lem fuel (i + 1) (pre ++ (c ∷ [])) rest (before ++ (c ∷ [])) src
                (length-snoc pre c i e) (length-snoc before c i k) (ground arith) (ground arith)
                (ground arith)
              ∙ ap some (snoc pre c (chars src ++ (0 ∷ drop (suc (length (chars src))) rest))))
    ]

-- Into a destination with room for them, `strcpy` writes exactly the characters before the
-- source's NUL and one NUL. Fuel for one round more than there are characters is enough.
pub strcpy_lem :
    (fuel : ℕ) (dest src : List ℕ)
    → HasNul src
    → length (chars src) < length dest
    → length (chars src) < fuel
    → strcpy fuel dest src ≡ some (chars src ++ (0 ∷ drop (suc (length (chars src))) dest))
unfolding strcpy
strcpy_lem fuel dest src n h f = strcpy_loop_lem fuel 0 [] dest [] src refl refl h f n

strnlen_loop_lem :
    (left i : ℕ) (before s : List ℕ)
    → i ≡ length before
    → Readable left s
    → strnlen_loop left i (before ++ s) ≡ some (i + min left (length (chars s)))
unfolding strnlen_loop
strnlen_loop_lem zero i before s k r = ap some (omega arith)
strnlen_loop_lem (suc left) i before [] k r = elim r [ ]
strnlen_loop_lem (suc left) i before (c ∷ s) k r = elim (Bool-cases (c == 0)) [
  | inl nul ↦ rw (get_elem?-append before i c s k, nul) (ap some (omega arith))
  | inr char ↦
      rw (get_elem?-append before i c s k, char, ← snoc before c s)
        (strnlen_loop_lem left (i + 1) (before ++ (c ∷ [])) s (length-snoc before c i k)
            (ground arith)
          ∙ ap some (omega arith))
]

-- `strnlen` is the number of characters before the NUL, or `maxlen` if that is less.
pub strnlen_lem :
    (s : List ℕ) (maxlen : ℕ)
    → Readable maxlen s
    → strnlen s maxlen ≡ some (min maxlen (length (chars s)))
unfolding strnlen
strnlen_lem s maxlen r = strnlen_loop_lem maxlen 0 [] s refl r ∙ ap some (omega arith)
