-- ===== src/Connection/Sfp/Receive.antt =====
-- Receiving: what the calls of `write_cb` leave in the buffer.
use libcsp_rust.Base.{
  ℕ, ◌+◌, ◌%◌, ◌^◌, ◌≡◌, ◌≤◌, ◌<◌, ◌⊎◌, inl, inr, List, [], ◌∷◌, map, Bool, true, false,
  if◌then◌else◌, arith, length, take, read_at, write_at, take-write_at, length-write_at,
  length-replicate, take_all, length-read_at, refl, ap, ap₂, ◌∙◌, sym, ltb,
}
use libcsp_rust.Base.Int.{ℤ, pos, negsuc, ◌==ℤ◌}
use libcsp_rust.Connection.Sfp.{write_cb, resized, sfp_result}
use libcsp_rust.Error.{Result}
use libcsp_rust.Connection.Sfp.Calls.{Request, Fragment, Tiles, Tiles-bound, fragment, watch}

-- The buffer holds the first `at` bytes of the blob, or no call was made yet.
Filled : List ℕ → ℕ → List ℕ → Type 0
Filled blob at buf =
    ((buf ≡ []) × (at ≡ 0)) ⊎ ((length buf ≡ length blob) × (take at buf ≡ take at blob))

resized_lem :
    (blob : List ℕ) (at : ℕ) (buf : List ℕ)
    → Filled blob at buf
    → let sized = resized buf (length blob) in
      (length sized ≡ length blob) × (take at sized ≡ take at blob)
unfolding resized Filled
resized_lem blob at [] (inl h) = (length-replicate (length blob) 0, rw h.1 refl)
resized_lem blob at (x ∷ buf) (inl h) = ground arith
resized_lem blob at [] (inr h) = rw (← h.0) (refl, h.1)
resized_lem blob at (x ∷ buf) (inr h) = h

module _ {S : Type 0} (usize_max : ℕ) (progress : S → ℕ → ℕ → List ℕ → Bool × S) where
  -- The calls in order, until one does not return 0.
  unfoldable pub receive : ℕ → List Fragment → List ℕ → S → ℤ × List ℕ × S
  receive totalsz [] buf s = (pos 0, buf, s)
  receive totalsz ((offset, bytes) ∷ frags) buf s =
      let (code, buf', s') = write_cb progress usize_max bytes offset totalsz buf s in
      let rest = receive totalsz frags buf' s' in if code ==ℤ pos 0 then rest else (code, buf', s')

  -- `watch` on the closure of a receive, which sees the bytes so far too.
  abbrev pub shown : List ℕ → List Request → S → ℤ × List Request × S
  shown blob = watch (λ s end'. progress s end' (length blob) (take end' blob))

  -- Whatever a call asks for, the buffer keeps the size that it has, or gets from its total.
  pub write_cb-keeps :
      (buf buffer : List ℕ) (offset totalsz : ℕ) (s : S)
      → let (code, buf', s') = write_cb progress usize_max buffer offset totalsz buf s in
        length buf' ≡ length (resized buf totalsz)
  unfolding write_cb
  write_cb-keeps buf buffer offset totalsz s =
      let kept = length-write_at (resized buf totalsz) offset buffer in ground arith

  write_cb_value :
      (blob : List ℕ) (size offset : ℕ) (buf : List ℕ) (s : S)
      → length blob < 2 ^ 32
      → length blob ≤ usize_max
      → length (resized buf (length blob)) ≡ length blob
      → let bytes = read_at blob offset size in
        let written = write_at (resized buf (length blob)) offset bytes in
        take (offset + size) written ≡ take (offset + size) blob
        → length bytes ≡ size
        → offset + size ≤ length blob
        → write_cb progress usize_max bytes offset (length blob) buf s ≡ (
            let (go, s') = progress s (offset + size) (length blob) (take (offset + size) blob) in
            (if go then pos 0 else negsuc 199, written, s'))
  unfolding write_cb
  write_cb_value blob size offset buf s h u l t n b =
      let small : (offset + size) % 2 ^ 32 ≡ offset + size = omega arith in
      let fits : ltb usize_max (offset + size) ≡ false = ground arith in
      let room : ltb (length (resized buf (length blob))) (offset + size) ≡ false = ground arith in
      rw n (rw (fits, room, small, t) refl)

  write_cb_within :
      (blob : List ℕ) (at size offset : ℕ) (buf : List ℕ) (s : S)
      → length blob < 2 ^ 32
      → length blob ≤ usize_max
      → Filled blob at buf
      → offset ≡ at
      → at + size ≤ length blob
      → (buf' : List ℕ) × Filled blob (at + size) buf'
        × (write_cb progress usize_max (read_at blob offset size) offset (length blob) buf s ≡ (
            let (go, s') = progress s (offset + size) (length blob) (take (offset + size) blob) in
            (if go then pos 0 else negsuc 199, buf', s')))
  unfolding write_cb Filled
  write_cb_within blob at size offset buf s h u f e b =
      let (l, t) = resized_lem blob at buf f in
      let sized = resized buf (length blob) in
      let written = write_at sized offset (read_at blob offset size) in
      let same : take (offset + size) written ≡ take (offset + size) blob =
        take-write_at sized blob offset size l (omega arith) (rw e t) in
      let size' : length (read_at blob offset size) ≡ size =
        length-read_at blob offset size (omega arith) in
      let b' : offset + size ≤ length blob = omega arith in
      (
        written,
        inr (omega (arith, length-write_at sized offset (read_at blob offset size)), rw (← e) same),
        write_cb_value blob size offset buf s h u l same size' b',
      )

  -- The result of the receive and the closure's state.
  unfoldable pub sfp_recv_with_progress : ℕ → List Fragment → S → Result (List ℕ) × S
  sfp_recv_with_progress totalsz frags s =
      let (code, buf, s') = receive totalsz frags [] s in (sfp_result code buf, s')

  AgreesWith : List ℕ → ℤ × List ℕ × S → ℤ × List Request × S → Type 0
  AgreesWith blob (code, buf, s) (code', done, s') =
      (sfp_result code buf ≡ sfp_result code' blob) × (s ≡ s')

  -- One call's answer taken into account, on both sides.
  go_on :
      (blob : List ℕ) (go : Bool) (r : Request) (buf : List ℕ) (s : S) (x : ℤ × List ℕ × S)
      (w : ℤ × List Request × S)
      → AgreesWith blob x w
      → let code : ℤ = if go then pos 0 else negsuc 199 in
        AgreesWith blob
          (if code ==ℤ pos 0 then x else (code, buf, s))
          (if go then (w.0, r ∷ w.1, w.2) else (negsuc 199, [], s))
  unfolding AgreesWith sfp_result
  go_on blob true r buf s x w h = h
  go_on blob false r buf s x w h = (refl, refl)

  complete :
      (blob : List ℕ) (at : ℕ) (buf : List ℕ) → Filled blob at buf → at ≡ length blob → buf ≡ blob
  unfolding Filled
  complete [] at buf (inl h) e = h.0
  complete (x ∷ blob) at buf (inl h) e = absurd (omega (arith, h.1))
  complete blob at buf (inr h) e =
      sym (take_all at buf (omega (arith, h.0))) ∙ h.1 ∙ take_all at blob (omega arith)

  receive_from :
      (blob : List ℕ) (at : ℕ) (reqs : List Request) (buf : List ℕ) (s : S)
      → length blob < 2 ^ 32
      → length blob ≤ usize_max
      → Filled blob at buf
      → Tiles at reqs (length blob)
      → AgreesWith blob (receive (length blob) (map (fragment blob) reqs) buf s) (shown blob reqs s)
  unfolding AgreesWith receive watch
  receive_from blob at [] buf s h u f t = (ap (sfp_result (pos 0)) (complete blob at buf f t), refl)
  receive_from blob at ((size, offset) ∷ reqs) buf s h u f t =
      let b : at + size ≤ length blob = Tiles-bound (at + size) reqs (length blob) t.1 in
      let (buf', f', now) = write_cb_within blob at size offset buf s h u f t.0 b in
      let s' = (progress s (offset + size) (length blob) (take (offset + size) blob)).1 in
      let ih = receive_from blob (at + size) reqs buf' s' h u f' t.1 in
      rw now (
        go_on blob (progress s (offset + size) (length blob) (take (offset + size) blob)).0
          (size, offset) buf' s' (receive (length blob) (map (fragment blob) reqs) buf' s')
          (shown blob reqs s') ih)

  -- When the calls deliver the pieces of a blob in order and without a gap, and its length fits a
  -- u32 and a usize: the closure is told the bytes received so far, the total and the prefix of the
  -- blob of that length, and the receive returns the blob unless the closure aborts it.
  pub sfp_recv_lem :
      (blob : List ℕ) (reqs : List Request) (s : S)
      → length blob < 2 ^ 32
      → length blob ≤ usize_max
      → Tiles 0 reqs (length blob)
      → let (code, done, s') = shown blob reqs s in
        sfp_recv_with_progress (length blob) (map (fragment blob) reqs) s
        ≡ (sfp_result code blob, s')
  unfolding sfp_recv_with_progress AgreesWith Filled
  sfp_recv_lem blob reqs s h u t =
      let r = receive_from blob 0 reqs [] s h u (inl (refl, refl)) t in ap₂ (λ x y. (x, y)) r.0 r.1
