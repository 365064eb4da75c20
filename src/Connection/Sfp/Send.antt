-- ===== src/Connection/Sfp/Send.antt =====
-- Sending: which bytes the calls of `read_cb` hand out, and when a read leaves the slice.
use libcsp_rust.Base.{
  ℕ, ◌+◌, ◌%◌, ◌^◌, ◌-◌, ◌≡◌, ◌≤◌, ◌<◌, ◌↔◌, List, [], ◌∷◌, map, Bool, Option, none, some,
  if◌then◌else◌, arith, length, read_at, refl, ap₂, min,
}
use libcsp_rust.Base.Int.{ℤ, pos, negsuc, ◌==ℤ◌}
use libcsp_rust.Connection.Sfp.{read_cb, sfp_result}
use libcsp_rust.Error.{Result}
use libcsp_rust.Connection.Sfp.Calls.{Request, Fragment, Tiles, Tiles-bound, fragment, watch}

mod_lt : {n : ℕ} → n < 2 ^ 32 → n % 2 ^ 32 ≡ n
mod_lt h = omega arith

module _ {S : Type 0} where
  -- The calls in order, until one does not return 0.
  unfoldable pub serve :
      (S → ℕ → ℕ → Bool × S) → List ℕ → List Request → S → Option (ℤ × List Fragment × S)
  serve progress data' [] s = some (pos 0, [], s)
  serve progress data' ((size, offset) ∷ reqs) s = elim (read_cb progress data' size offset s) [
    | none ↦ none
    | some (code, bytes, s') ↦ elim (serve progress data' reqs s') [
      | none ↦ none
      | some (code', rest, s'') ↦
          some (if code ==ℤ pos 0 then (code', (offset, bytes) ∷ rest, s'') else (code, [], s'))
    ]
  ]

  -- `read_cb` leaves the slice exactly when its length ends in 2 ^ 32 - 1 and the request goes
  -- beyond it.
  pub read_cb-fault_iff :
      (progress : S → ℕ → ℕ → Bool × S) (data' : List ℕ) (size offset : ℕ) (s : S)
      → (read_cb progress data' size offset s ≡ none)
        ↔ ((length data' % 2 ^ 32 ≡ 2 ^ 32 - 1) × (length data' < offset + size))
  unfolding read_cb
  read_cb-fault_iff progress data' size offset s = ground arith

  read_cb_within :
      (progress : S → ℕ → ℕ → Bool × S) (data' : List ℕ) (size offset : ℕ) (s : S)
      → length data' < 2 ^ 32
      → offset + size ≤ length data'
      → let (go, s') = progress s (offset + size) (length data') in
        read_cb progress data' size offset s
        ≡ some (if go then pos 0 else negsuc 199, read_at data' offset size, s')
  unfolding read_cb
  read_cb_within progress data' size offset s h k =
      let answer : ℕ → ℕ → Option (ℤ × List ℕ × S) = λ e l. some (
        if (progress s e l).0 then pos 0 else negsuc 199,
        read_at data' offset size,
        (progress s e l).1,
      ) in
      let same : min (offset + size) (2 ^ 32 - 1) ≡ offset + size = omega arith in
      let e = ap₂ answer same (mod_lt h) in ground arith

  -- `watch` on the closure of a send of `total` bytes.
  abbrev pub told : (S → ℕ → ℕ → Bool × S) → ℕ → List Request → S → ℤ × List Request × S
  told progress total = watch (λ s end'. progress s end' total)

  serve_from :
      (progress : S → ℕ → ℕ → Bool × S) (data' : List ℕ) (at : ℕ) (reqs : List Request) (s : S)
      → length data' < 2 ^ 32
      → Tiles at reqs (length data')
      → let (code, done, s') = told progress (length data') reqs s in
        serve progress data' reqs s ≡ some (code, map (fragment data') done, s')
  unfolding serve watch
  serve_from progress data' at [] s h t = refl
  serve_from progress data' at ((size, offset) ∷ reqs) s h t =
      let total = length data' in
      let (go, s') = progress s (offset + size) total in
      let b : offset + size ≤ total = omega (arith, t.0, Tiles-bound (at + size) reqs total t.1) in
      let now = read_cb_within progress data' size offset s h b in
      let ih = serve_from progress data' (at + size) reqs s' h t.1 in
      rw (serve, now) (rw ih (ground arith))

  -- The result of the send, the fragments that the calls delivered and the closure's state.
  unfoldable pub sfp_send_with_progress :
      (S → ℕ → ℕ → Bool × S)
      → List ℕ
      → List Request
      → S
      → Option (Result (Unit {0}) × List Fragment × S)
  sfp_send_with_progress progress data' reqs s = elim (serve progress data' reqs s) [
    | none ↦ none
    | some (code, frags, s') ↦ some (sfp_result code tt, frags, s')
  ]

  -- When the calls ask for the data in order and without a gap, and it is shorter than 2 ^ 32: no
  -- call leaves the slice, each delivers its piece of the data, the closure is told the bytes handed
  -- out so far and the total, and the send succeeds or is aborted as the closure says.
  pub sfp_send_lem :
      (progress : S → ℕ → ℕ → Bool × S) (data' : List ℕ) (reqs : List Request) (s : S)
      → length data' < 2 ^ 32
      → Tiles 0 reqs (length data')
      → let (code, done, s') = told progress (length data') reqs s in
        sfp_send_with_progress progress data' reqs s
        ≡ some (sfp_result code tt, map (fragment data') done, s')
  unfolding sfp_send_with_progress
  sfp_send_lem progress data' reqs s h t =
      rw (sfp_send_with_progress, serve_from progress data' 0 reqs s h t) refl
