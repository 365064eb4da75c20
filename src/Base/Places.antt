-- ===== src/Base/Places.antt =====
-- Numbers that lie in lists as in places: how often each one does.
use Prim.Native.Nat.{ℕ, ◌+◌, ◌≤◌}
use mathlib.Core.Path.{◌≡◌}
use mathlib.Core.Bool.{Bool, true, false, ◌||◌}
use mathlib.Core.List.{List, [], ◌∷◌}
use native.Mathlib.Omega.{arith}
use libcsp_rust.Base.Tests.{◌==◌, if◌then◌else◌}
use libcsp_rust.Base.Lists.{length}

abbrev pub has : ℕ → List ℕ → Bool
has p [] = false
has p (q ∷ qs) = p == q || has p qs

-- One copy less.
abbrev pub remove : ℕ → List ℕ → List ℕ
remove p [] = []
remove p (q ∷ qs) = let rest = remove p qs in if p == q then qs else q ∷ rest

abbrev pub one_if : Bool → ℕ
one_if b = if b then 1 else 0

abbrev pub copies : ℕ → List ℕ → ℕ
copies q [] = 0
copies q (p ∷ ps) = one_if (q == p) + copies q ps

same : (q p r : ℕ) → (p == r) ≡ true → (q == p) ≡ (q == r)
same q p r e = ground arith

pub copies-remove :
    (q p : ℕ) (ps : List ℕ)
    → has p ps ≡ true
    → one_if (q == p) + copies q (remove p ps) ≡ copies q ps
copies-remove q p [] h = ground arith
copies-remove q p (r ∷ ps) h = ground (arith, copies-remove q p ps, same q p r)

pub length-remove : (p : ℕ) (ps : List ℕ) → has p ps ≡ true → 1 + length (remove p ps) ≡ length ps
length-remove p [] h = ground arith
length-remove p (r ∷ ps) h = ground (arith, length-remove p ps)

pub copies-has : (p : ℕ) (ps : List ℕ) → has p ps ≡ true → 1 ≤ copies p ps
copies-has p [] h = ground arith
copies-has p (r ∷ ps) h = ground (arith, copies-has p ps)

pub has-copies : (p : ℕ) (ps : List ℕ) → 1 ≤ copies p ps → has p ps ≡ true
has-copies p [] h = ground arith
has-copies p (r ∷ ps) h = ground (arith, has-copies p ps)
