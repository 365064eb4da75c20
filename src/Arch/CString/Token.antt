-- ===== src/Arch/CString/Token.antt =====
-- One call of `strtok_r`, on a buffer laid out as delimiters, a token, and what ends it.
use libcsp_rust.Base.{
  ℕ, zero, suc, ◌+◌, ◌<◌, List, [], ◌∷◌, ◌++◌, ◌≡◌, ◌≢◌, ◌⊎◌, inl, inr, arith, some, ◌==◌,
  if◌then◌else◌, length, ap, ap₂, ◌∙◌, All, Bool, true, false,
}
use libcsp_rust.Arch.CString.{is_delim, skip_delims, find_end}
use libcsp_rust.Arch.CString.Spec.{chars, HasNul, get_elem?-append}
use libcsp_rust.Arch.CString.Copy.{snoc, length-snoc, store-append}

pub ne-zero : (c : ℕ) → c ≢ 0 → (c == 0) ≡ false
ne-zero c h = ground arith

abbrev pub mem_char : List ℕ → ℕ → Bool
mem_char [] c = false
mem_char (d ∷ s) c = if c == d then true else mem_char s c

-- `c` is one of the characters before the delimiters' NUL.
abbrev pub IsDelim : List ℕ → ℕ → Type 0
IsDelim delim c = (c ≢ 0) × (mem_char (chars delim) c ≡ true)

-- `c` is none of them, and not the NUL.
abbrev pub IsChar : List ℕ → ℕ → Type 0
IsChar delim c = (c ≢ 0) × (mem_char (chars delim) c ≡ false)

-- The search over a delimiter string decides membership among its characters.

is_delim_lem :
    (delim : List ℕ) (c : ℕ) → HasNul delim → is_delim delim c ≡ some (mem_char (chars delim) c)
unfolding is_delim
is_delim_lem [] c h = elim h [ ]
is_delim_lem (d ∷ delim) c h = ground (arith, is_delim_lem delim c)

module _ (delim : List ℕ) (nul : HasNul delim) where
  delim_found : (c : ℕ) (b : Bool) → mem_char (chars delim) c ≡ b → is_delim delim c ≡ some b
  delim_found c b e = is_delim_lem delim c nul ∙ ap some e

  pub skip_lem :
      (fuel p : ℕ) (pre lead : List ℕ) (x : ℕ) (rest : List ℕ)
      → p ≡ length pre
      → length lead < fuel
      → All (IsDelim delim) lead
      → (x ≡ 0) ⊎ IsChar delim x
      → skip_delims fuel (pre ++ (lead ++ (x ∷ rest))) delim p ≡ some (p + length lead)
  unfolding skip_delims
  skip_lem zero p pre lead x rest e f ds s = absurd (omega arith)
  skip_lem (suc fuel) p pre [] x rest e f ds (inl z) =
      rw (get_elem?-append pre p x rest e, z) (ap some (omega arith))
  skip_lem (suc fuel) p pre [] x rest e f ds (inr (ne, char)) =
      rw (get_elem?-append pre p x rest e, ne-zero x ne, delim_found x false char)
        (ap some (omega arith))
  skip_lem (suc fuel) p pre (d ∷ lead) x rest e f ((ne, is), ds) s =
      rw
        (
          get_elem?-append pre p d (lead ++ (x ∷ rest)) e,
          ne-zero d ne,
          delim_found d true is,
          ← snoc pre d (lead ++ (x ∷ rest)),
        )
        (skip_lem fuel (p + 1) (pre ++ (d ∷ [])) lead x rest (length-snoc pre d p e) (omega arith)
            ds s
          ∙ ap some (omega arith))

  -- The token ends at a NUL.
  pub find_nul :
      (fuel p : ℕ) (pre tok rest : List ℕ)
      → p ≡ length pre
      → length tok < fuel
      → All (IsChar delim) tok
      → find_end fuel (pre ++ (tok ++ (0 ∷ rest))) delim p
        ≡ some (pre ++ (tok ++ (0 ∷ rest)), p + length tok)
  unfolding find_end
  find_nul zero p pre tok rest e f cs = absurd (omega arith)
  find_nul (suc fuel) p pre [] rest e f cs =
      rw (get_elem?-append pre p 0 rest e) (ap (λ k. some (pre ++ (0 ∷ rest), k)) (omega arith))
  find_nul (suc fuel) p pre (c ∷ tok) rest e f ((ne, char), cs) =
      rw
        (
          get_elem?-append pre p c (tok ++ (0 ∷ rest)) e,
          ne-zero c ne,
          delim_found c false char,
          ← snoc pre c (tok ++ (0 ∷ rest)),
        )
        (find_nul fuel (p + 1) (pre ++ (c ∷ [])) tok rest (length-snoc pre c p e) (omega arith) cs
          ∙ ap (λ k. some ((pre ++ (c ∷ [])) ++ (tok ++ (0 ∷ rest)), k)) (omega arith))

  -- The token ends at a delimiter, which is overwritten by a NUL.
  pub find_delim :
      (fuel p : ℕ) (pre tok : List ℕ) (d : ℕ) (rest : List ℕ)
      → p ≡ length pre
      → length tok < fuel
      → All (IsChar delim) tok
      → IsDelim delim d
      → find_end fuel (pre ++ (tok ++ (d ∷ rest))) delim p
        ≡ some (pre ++ (tok ++ (0 ∷ rest)), p + length tok + 1)
  unfolding find_end
  find_delim zero p pre tok d rest e f cs h = absurd (omega arith)
  find_delim (suc fuel) p pre [] d rest e f cs (ne, is) =
      rw
        (
          get_elem?-append pre p d rest e,
          ne-zero d ne,
          delim_found d true is,
          store-append pre p d 0 rest e,
        )
        (ap (λ k. some (pre ++ (0 ∷ rest), k)) (omega arith))
  find_delim (suc fuel) p pre (c ∷ tok) d rest e f ((ne, char), cs) h =
      rw
        (
          get_elem?-append pre p c (tok ++ (d ∷ rest)) e,
          ne-zero c ne,
          delim_found c false char,
          ← snoc pre c (tok ++ (d ∷ rest)),
        )
        (find_delim fuel (p + 1) (pre ++ (c ∷ [])) tok d rest (length-snoc pre c p e) (omega arith)
            cs h
          ∙ ap₂ (λ b k. some (b, k)) (snoc pre c (tok ++ (0 ∷ rest))) (omega arith))
