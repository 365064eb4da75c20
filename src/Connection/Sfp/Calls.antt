-- ===== src/Connection/Sfp/Calls.antt =====
-- The calls of a transfer in order, and what a progress closure is told over them.
use libcsp_rust.Base.{
  ℕ, ◌+◌, ◌≡◌, ◌≤◌, List, [], ◌∷◌, Bool, true, if◌then◌else◌, arith, read_at, refl, ap,
}
use libcsp_rust.Base.Int.{ℤ, pos, negsuc}

-- The size and the offset of one call.
abbrev pub Request : Type 0
Request = ℕ × ℕ

-- The offset and the bytes that one call delivers.
abbrev pub Fragment : Type 0
Fragment = ℕ × List ℕ

-- The requests follow each other without a gap, from an offset to the end.
abbrev pub Tiles : ℕ → List Request → ℕ → Type 0
Tiles at [] total = at ≡ total
Tiles at ((size, offset) ∷ reqs) total = (offset ≡ at) × Tiles (at + size) reqs total

pub Tiles-bound : (at : ℕ) (reqs : List Request) (total : ℕ) → Tiles at reqs total → at ≤ total
Tiles-bound at [] total h = omega arith
Tiles-bound at ((size, offset) ∷ reqs) total h =
    omega (arith, Tiles-bound (at + size) reqs total h.1)

abbrev pub fragment : List ℕ → Request → Fragment
fragment blob (size, offset) = (offset, read_at blob offset size)

module _ {S : Type 0} where
  -- The closure told the end of each request until it refuses one: 0 or the code of an abort, the
  -- requests before the refused one, and its state.
  unfoldable pub watch : (S → ℕ → Bool × S) → List Request → S → ℤ × List Request × S
  watch tell [] s = (pos 0, [], s)
  watch tell ((size, offset) ∷ reqs) s =
      let (go, s') = tell s (offset + size) in
      let (code, done, s'') = watch tell reqs s' in
      if go then (code, (size, offset) ∷ done, s'') else (negsuc 199, [], s')

  -- A closure that refuses nothing sees every request.
  pub watch_all :
      (tell : S → ℕ → Bool × S)
      → ((s : S) (n : ℕ) → (tell s n).0 ≡ true)
      → (reqs : List Request) (s : S)
      → ((watch tell reqs s).0 ≡ pos 0) × ((watch tell reqs s).1 ≡ reqs)
  unfolding watch
  watch_all tell h [] s = (refl, refl)
  watch_all tell h ((size, offset) ∷ reqs) s =
      let ih = watch_all tell h reqs (tell s (offset + size)).1 in
      let e = h s (offset + size) in rw e (ih.0, ap (λ r. (size, offset) ∷ r) ih.1)
