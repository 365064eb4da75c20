-- ===== src/Base/Slices.antt =====
-- A byte region read and written at an offset, as `ptr::copy_nonoverlapping` and slice copies do.
use Prim.Native.Nat.{ℕ, zero, suc, ◌+◌, ◌≤◌}
use mathlib.Core.Path.{◌≡◌, refl, sym, ap, ap₂, ◌∙◌}
use mathlib.Core.List.{List, [], ◌∷◌, ◌++◌, append_assoc}
use native.Mathlib.Omega.{arith}
use libcsp_rust.Base.Lists.{
  length, take, drop, length-take, length-drop, take-append, take-append-drop,
}

module _ {ℓ} {A : Type ℓ} where
  -- `n` elements from `off` on.
  abbrev pub read_at : List A → ℕ → ℕ → List A
  read_at buf off n = take n (drop off buf)

  -- The elements `src` overlaid from `off` on; what falls outside the region is not written.
  abbrev pub write_at : List A → ℕ → List A → List A
  write_at [] off src = []
  write_at (x ∷ buf) off [] = x ∷ buf
  write_at (x ∷ buf) zero (s ∷ src) = s ∷ write_at buf zero src
  write_at (x ∷ buf) (suc off) (s ∷ src) = x ∷ write_at buf off (s ∷ src)

  pub length-write_at :
      (buf : List A) (off : ℕ) (src : List A) → length (write_at buf off src) ≡ length buf
  length-write_at [] off src = refl
  length-write_at (x ∷ buf) off [] = refl
  length-write_at (x ∷ buf) zero (s ∷ src) = ap suc (length-write_at buf zero src)
  length-write_at (x ∷ buf) (suc off) (s ∷ src) = ap suc (length-write_at buf off (s ∷ src))

  -- What was written is read back.
  pub read_at-write_at_self :
      (buf : List A) (off n : ℕ) (src : List A)
      → n ≡ length src
      → off + n ≤ length buf
      → read_at (write_at buf off src) off n ≡ src
  read_at-write_at_self buf off zero [] e h = refl
  read_at-write_at_self buf off zero (s ∷ src) e h = absurd (omega arith)
  read_at-write_at_self buf off (suc n) [] e h = absurd (omega arith)
  read_at-write_at_self [] off (suc n) (s ∷ src) e h = absurd (omega arith)
  read_at-write_at_self (x ∷ buf) zero (suc n) (s ∷ src) e h =
      ap (λ t. s ∷ t) (read_at-write_at_self buf zero n src (omega arith) (omega arith))
  read_at-write_at_self (x ∷ buf) (suc off) (suc n) (s ∷ src) e h =
      read_at-write_at_self buf off (suc n) (s ∷ src) e (omega arith)

  -- A read that ends before the write is not changed.
  pub read_at-write_at_before :
      (buf : List A) (i n off : ℕ) (src : List A)
      → i + n ≤ off
      → read_at (write_at buf off src) i n ≡ read_at buf i n
  read_at-write_at_before [] i n off src h = refl
  read_at-write_at_before (x ∷ buf) i n off [] h = refl
  read_at-write_at_before (x ∷ buf) zero zero zero (s ∷ src) h = refl
  read_at-write_at_before (x ∷ buf) zero (suc n) zero (s ∷ src) h = absurd (omega arith)
  read_at-write_at_before (x ∷ buf) (suc i) n zero (s ∷ src) h = absurd (omega arith)
  read_at-write_at_before (x ∷ buf) zero zero (suc off) (s ∷ src) h = refl
  read_at-write_at_before (x ∷ buf) zero (suc n) (suc off) (s ∷ src) h =
      ap (λ t. x ∷ t) (read_at-write_at_before buf zero n off (s ∷ src) (omega arith))
  read_at-write_at_before (x ∷ buf) (suc i) n (suc off) (s ∷ src) h =
      read_at-write_at_before buf i n off (s ∷ src) (omega arith)

  drop-write_at :
      (buf : List A) (off i : ℕ) (src : List A)
      → off + length src ≤ i
      → drop i (write_at buf off src) ≡ drop i buf
  drop-write_at [] off i src h = refl
  drop-write_at (x ∷ buf) off i [] h = refl
  drop-write_at (x ∷ buf) off zero (s ∷ src) h = absurd (omega arith)
  drop-write_at (x ∷ buf) zero (suc i) (s ∷ src) h = drop-write_at buf zero i src (omega arith)
  drop-write_at (x ∷ buf) (suc off) (suc i) (s ∷ src) h =
      drop-write_at buf off i (s ∷ src) (omega arith)

  -- A read that starts behind the write is not changed.
  pub read_at-write_at_after :
      (buf : List A) (i n off : ℕ) (src : List A)
      → off + length src ≤ i
      → read_at (write_at buf off src) i n ≡ read_at buf i n
  read_at-write_at_after buf i n off src h = ap (take n) (drop-write_at buf off i src h)

  pub length-read_at :
      (buf : List A) (off n : ℕ) → off + n ≤ length buf → length (read_at buf off n) ≡ n
  length-read_at buf off n h = omega (arith, length-take n (drop off buf), length-drop off buf)

  -- A write of the whole prefix, as a concatenation.
  pub write_at-zero :
      (buf src : List A)
      → length src ≤ length buf
      → write_at buf 0 src ≡ src ++ drop (length src) buf
  write_at-zero [] [] h = refl
  write_at-zero [] (s ∷ src) h = absurd (omega arith)
  write_at-zero (x ∷ buf) [] h = refl
  write_at-zero (x ∷ buf) (s ∷ src) h = ap (λ t. s ∷ t) (write_at-zero buf src (omega arith))

  -- A write just behind a prefix leaves the prefix.
  pub write_at-append :
      (pre rest : List A) (off : ℕ) (src : List A)
      → off ≡ length pre
      → write_at (pre ++ rest) off src ≡ pre ++ write_at rest 0 src
  write_at-append [] rest zero src e = refl
  write_at-append [] rest (suc off) src e = absurd (omega arith)
  write_at-append (x ∷ pre) rest zero src e = absurd (omega arith)
  write_at-append (x ∷ pre) [] (suc off) [] e = refl
  write_at-append (x ∷ pre) (y ∷ rest) (suc off) [] e = refl
  write_at-append (x ∷ pre) rest (suc off) (s ∷ src) e =
      ap (λ t. x ∷ t) (write_at-append pre rest off (s ∷ src) (omega arith))

  take-nil : (n : ℕ) → take {A = A} n [] ≡ []
  take-nil zero = refl
  take-nil (suc n) = refl

  take-read_at : (xs : List A) (off n : ℕ) → take off xs ++ read_at xs off n ≡ take (off + n) xs
  take-read_at xs zero n = let e : n ≡ 0 + n = omega arith in ap (λ k. take k xs) e
  take-read_at [] (suc off) n = take-nil n ∙ sym (take-nil (suc off + n))
  take-read_at (x ∷ xs) (suc off) n =
      let e : suc (off + n) ≡ suc off + n = omega arith in
      ap (λ t. x ∷ t) (take-read_at xs off n) ∙ ap (λ k. take k (x ∷ xs)) e

  -- A write just behind a prefix of another list lengthens that prefix.
  pub take-write_at :
      (buf xs : List A) (off n : ℕ)
      → length buf ≡ length xs
      → off + n ≤ length xs
      → take off buf ≡ take off xs
      → take (off + n) (write_at buf off (read_at xs off n)) ≡ take (off + n) xs
  take-write_at buf xs off n l h e =
      let src = read_at xs off n in
      let rest = drop off buf in
      let ls : length src ≡ n = length-read_at xs off n h in
      let lt : length (take off buf) ≡ off = omega (arith, length-take off buf) in
      let apart : write_at (take off buf ++ rest) off src ≡ take off buf ++ write_at rest 0 src =
        write_at-append (take off buf) rest off src (sym lt) in
      let fits : length src ≤ length rest = omega (arith, ls, length-drop off buf) in
      let joined : write_at buf off src ≡ (take off xs ++ src) ++ drop (length src) rest =
        ap (λ t. write_at t off src) (sym (take-append-drop off buf))
        ∙ apart
        ∙ ap₂ (λ s t. s ++ t) e (write_at-zero rest src fits)
        ∙ sym (append_assoc (take off xs) src (drop (length src) rest)) in
      let total : off + n ≡ length (take (off + n) xs) = omega (arith, length-take (off + n) xs) in
      rw joined (rw (take-read_at xs off n) (take-append (off + n) (take (off + n) xs) _ total))
