-- ===== src/Arch/CString/Compare.antt =====
-- `strncasecmp` and `strncmp` against the first difference of two lists of characters.
use libcsp_rust.Base.{
  ℕ, zero, suc, ◌+◌, ◌<◌, List, [], ◌∷◌, ◌++◌, ◌≡◌, ◌↔◌, inl, inr, refl, arith, some, ◌==◌,
  if◌then◌else◌, length, take, ap, ap₂, sym, ◌∙◌, map, All, Bool-cases, ==_iff,
}
use libcsp_rust.Base.Int.{ℤ, pos, sub_ℕ, neg}
use libcsp_rust.Arch.CString.{lower, strncasecmp_loop, strncasecmp, strncmp_loop, strncmp}
use libcsp_rust.Arch.CString.Spec.{chars, Readable, get_elem?-append}
use libcsp_rust.Arch.CString.Copy.{snoc, length-snoc}

-- The difference at the first place where two lists differ, a list that ended counting as NUL.
abbrev pub first_diff : List ℕ → List ℕ → ℤ
first_diff [] [] = pos 0
first_diff [] (y ∷ ys) = sub_ℕ 0 y
first_diff (x ∷ xs) [] = sub_ℕ x 0
first_diff (x ∷ xs) (y ∷ ys) = if x == y then first_diff xs ys else sub_ℕ x y

abbrev IsPos : ℕ → Type 0
IsPos x = 0 < x

first_diff-eq-zero :
    (xs ys : List ℕ) → All IsPos xs → All IsPos ys → first_diff xs ys ≡ pos 0 → xs ≡ ys
first_diff-eq-zero [] [] p q e = refl
first_diff-eq-zero [] (y ∷ ys) p q e = absurd (ground arith)
first_diff-eq-zero (x ∷ xs) [] p q e = absurd (ground arith)
first_diff-eq-zero (x ∷ xs) (y ∷ ys) p q e = elim (Bool-cases (x == y)) [
  | inl s ↦ ap₂ ◌∷◌ ((==_iff x y).0 s) (first_diff-eq-zero xs ys p.1 q.1 (rw s at e))
  | inr d ↦ absurd (ground arith)
]

first_diff_self : (xs : List ℕ) → first_diff xs xs ≡ pos 0
first_diff_self [] = refl
first_diff_self (x ∷ xs) = ground (arith, first_diff_self xs)

pub first_diff_anti : (xs ys : List ℕ) → first_diff ys xs ≡ neg (first_diff xs ys)
first_diff_anti [] [] = refl
first_diff_anti [] (y ∷ ys) = ground arith
first_diff_anti (x ∷ xs) [] = ground arith
first_diff_anti (x ∷ xs) (y ∷ ys) = ground (arith, first_diff_anti xs ys)

-- What `n` rounds read of a string, case ignored.
abbrev pub folded : ℕ → List ℕ → List ℕ
folded n s = map lower (take n (chars s))

folded-IsPos : (n : ℕ) (s : List ℕ) → All IsPos (folded n s)
folded-IsPos zero s = tt
folded-IsPos (suc n) [] = tt
folded-IsPos (suc n) (c ∷ s) = elim (Bool-cases (c == 0)) [
  | inl nul ↦ rw nul tt
  | inr char ↦ rw char (ground arith, folded-IsPos n s)
]

strncasecmp_loop_lem :
    (left i : ℕ) (b1 s1 b2 s2 : List ℕ)
    → i ≡ length b1
    → i ≡ length b2
    → Readable left s1
    → Readable left s2
    → strncasecmp_loop left i (b1 ++ s1) (b2 ++ s2)
      ≡ some (first_diff (folded left s1) (folded left s2))
unfolding strncasecmp_loop
strncasecmp_loop_lem zero i b1 s1 b2 s2 e k r1 r2 = refl
strncasecmp_loop_lem (suc left) i b1 [] b2 s2 e k r1 r2 = elim r1 [ ]
strncasecmp_loop_lem (suc left) i b1 (x ∷ s1) b2 [] e k r1 r2 = elim r2 [ ]
strncasecmp_loop_lem (suc left) i b1 (x ∷ s1) b2 (y ∷ s2) e k r1 r2 =
    rw (get_elem?-append b1 i x s1 e, get_elem?-append b2 i y s2 k, ← snoc b1 x s1, ← snoc b2 y s2)
      (ground (
        arith,
        strncasecmp_loop_lem left (i + 1) (b1 ++ (x ∷ [])) s1 (b2 ++ (y ∷ [])) s2
            (length-snoc b1 x i e) (length-snoc b2 y i k),
      ))

-- `strncasecmp` is the first difference of the two strings within `n` characters, case ignored.
strncasecmp_lem :
    (s1 s2 : List ℕ) (n : ℕ)
    → Readable n s1
    → Readable n s2
    → strncasecmp s1 s2 n ≡ some (first_diff (folded n s1) (folded n s2))
unfolding strncasecmp
strncasecmp_lem s1 s2 n r1 r2 = strncasecmp_loop_lem n 0 [] s1 [] s2 refl refl r1 r2

strncmp_loop_lem :
    (left i : ℕ) (b1 s1 b2 s2 : List ℕ)
    → i ≡ length b1
    → i ≡ length b2
    → Readable left s1
    → Readable left s2
    → strncmp_loop left i (b1 ++ s1) (b2 ++ s2)
      ≡ some (first_diff (take left (chars s1)) (take left (chars s2)))
unfolding strncmp_loop
strncmp_loop_lem zero i b1 s1 b2 s2 e k r1 r2 = refl
strncmp_loop_lem (suc left) i b1 [] b2 s2 e k r1 r2 = elim r1 [ ]
strncmp_loop_lem (suc left) i b1 (x ∷ s1) b2 [] e k r1 r2 = elim r2 [ ]
strncmp_loop_lem (suc left) i b1 (x ∷ s1) b2 (y ∷ s2) e k r1 r2 =
    rw (get_elem?-append b1 i x s1 e, get_elem?-append b2 i y s2 k, ← snoc b1 x s1, ← snoc b2 y s2)
      (ground (
        arith,
        strncmp_loop_lem left (i + 1) (b1 ++ (x ∷ [])) s1 (b2 ++ (y ∷ [])) s2 (length-snoc b1 x i e)
            (length-snoc b2 y i k),
      ))

-- `strncmp` is the first difference of the two strings within `n` characters, as `strncasecmp` is
-- with case ignored; neither reads past a NUL or `n` bytes.
pub strncmp_lem :
    (s1 s2 : List ℕ) (n : ℕ)
    → Readable n s1
    → Readable n s2
    → (strncmp s1 s2 n ≡ some (first_diff (take n (chars s1)) (take n (chars s2))))
      × (strncasecmp s1 s2 n ≡ some (first_diff (folded n s1) (folded n s2)))
unfolding strncmp
strncmp_lem s1 s2 n r1 r2 =
    (strncmp_loop_lem n 0 [] s1 [] s2 refl refl r1 r2, strncasecmp_lem s1 s2 n r1 r2)

some-eq {ℓ} : {A : Type ℓ} (x y : A) → some x ≡ some y → x ≡ y
some-eq x y e = cc

-- `strncasecmp` returns 0 exactly when the two strings, cut to `n` characters, are equal up to
-- case.
pub strncasecmp-eq-zero_iff :
    (s1 s2 : List ℕ) (n : ℕ)
    → Readable n s1
    → Readable n s2
    → (strncasecmp s1 s2 n ≡ some (pos 0)) ↔ (folded n s1 ≡ folded n s2)
strncasecmp-eq-zero_iff s1 s2 n r1 r2 = (
  λ e.
      first_diff-eq-zero (folded n s1) (folded n s2) (folded-IsPos n s1) (folded-IsPos n s2)
        (some-eq _ _ (sym (strncasecmp_lem s1 s2 n r1 r2) ∙ e)),
  λ e. strncasecmp_lem s1 s2 n r1 r2 ∙ ap some (rw e (first_diff_self (folded n s2))),
)

-- Swapping the two strings negates the result of `strncasecmp`.
pub strncasecmp_anti :
    (s1 s2 : List ℕ) (n : ℕ) (r : ℤ)
    → Readable n s1
    → Readable n s2
    → strncasecmp s1 s2 n ≡ some r
    → strncasecmp s2 s1 n ≡ some (neg r)
strncasecmp_anti s1 s2 n r r1 r2 e =
    strncasecmp_lem s2 s1 n r2 r1
    ∙ ap some (
        first_diff_anti (folded n s1) (folded n s2)
        ∙ ap neg (some-eq _ _ (sym (strncasecmp_lem s1 s2 n r1 r2) ∙ e)))
