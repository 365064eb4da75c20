-- ===== src/Arch/CString/Spec.antt =====
-- Strings as C sees them, described on lists.
use libcsp_rust.Base.{
  ℕ, zero, suc, List, [], ◌∷◌, ◌++◌, ◌≡◌, ◌⊎◌, refl, arith, some, ◌==◌, if◌then◌else◌, length,
  get_elem?, set, ap,
}

-- The characters before the first NUL.
abbrev pub chars : List ℕ → List ℕ
chars [] = []
chars (c ∷ s) = if c == 0 then [] else c ∷ chars s

-- There is a NUL.
abbrev pub HasNul : List ℕ → Type 0
HasNul [] = ⊥
HasNul (c ∷ s) = (c ≡ 0) ⊎ HasNul s

-- `n` bytes can be read, or all up to a NUL.
abbrev pub Readable : ℕ → List ℕ → Type 0
Readable zero s = Unit
Readable (suc n) [] = ⊥
Readable (suc n) (c ∷ s) = (c ≡ 0) ⊎ Readable n s

-- Cut or padded with NUL to `n` bytes.
abbrev pub padded : ℕ → List ℕ → List ℕ
padded zero s = []
padded (suc n) [] = 0 ∷ padded n []
padded (suc n) (c ∷ s) = c ∷ padded n s

pub Readable-of_HasNul : (n : ℕ) (s : List ℕ) → HasNul s → Readable n s
Readable-of_HasNul zero s h = tt
Readable-of_HasNul (suc n) [] h = h
Readable-of_HasNul (suc n) (c ∷ s) h = ground (arith, Readable-of_HasNul n s)

-- An access at the end of a prefix.
module _ {ℓ} {A : Type ℓ} where
  pub get_elem?-append :
      (pre : List A) (i : ℕ) (x : A) (rest : List A)
      → i ≡ length pre
      → get_elem? (pre ++ (x ∷ rest)) i ≡ some x
  get_elem?-append [] zero x rest e = refl
  get_elem?-append [] (suc i) x rest e = absurd (omega arith)
  get_elem?-append (y ∷ pre) zero x rest e = absurd (omega arith)
  get_elem?-append (y ∷ pre) (suc i) x rest e = get_elem?-append pre i x rest (omega arith)

  pub set-append :
      (pre : List A) (i : ℕ) (x v : A) (rest : List A)
      → i ≡ length pre
      → set (pre ++ (x ∷ rest)) i v ≡ pre ++ (v ∷ rest)
  set-append [] zero x v rest e = refl
  set-append [] (suc i) x v rest e = absurd (omega arith)
  set-append (y ∷ pre) zero x v rest e = absurd (omega arith)
  set-append (y ∷ pre) (suc i) x v rest e =
      ap (λ t. y ∷ t) (set-append pre i x v rest (omega arith))
