-- ===== src/Packet/Ownership/Exclusive.antt =====
-- Every buffer of the pool is in one place at a time.
use libcsp_rust.Base.{ℕ, ◌+◌, List, [], ◌∷◌, true, some, ◌≡◌, ◌↔◌, refl, ◌∙◌, arith}
use libcsp_rust.Packet.Ownership.{
  Buffers, csp_buffer_get, csp_takes, from_raw, into_raw, drop, get, send, send_direct, sent_over,
  sends_direct, sends_over, handle_service, sendto, rx, read, recvfrom, sniff, Step, gets, drops,
  sends, handles, sends_to, hands_on, reads, receives, sniffs, csp_frees, csp_allocates, Reachable,
  starts, goes_on,
}
use libcsp_rust.Base.Places.{has, copies, copies-remove, copies-has, has-copies}

abbrev pub total : ℕ → Buffers → ℕ
total q w = copies q w.free + copies q w.owned + copies q w.inside

total-gets :
    (q : ℕ) (free owned inside : List ℕ)
    → total q (get (record { free = free; owned = owned; inside = inside })).1
      ≡ total q (record { free = free; owned = owned; inside = inside })
unfolding get from_raw
total-gets q [] owned inside = refl
total-gets q (p ∷ free) owned inside = omega arith

total-allocates :
    (q p : ℕ) (free owned inside : List ℕ) (w' : Buffers)
    → csp_buffer_get (record { free = free; owned = owned; inside = inside }) ≡ (some p, w')
    → total q (csp_takes p w') ≡ total q (record { free = free; owned = owned; inside = inside })
total-allocates q p [] owned inside w' e = ground arith
total-allocates q p (r ∷ free) owned inside w' e = ground arith

total-Step : {w w' : Buffers} (q : ℕ) → Step w w' → total q w' ≡ total q w
unfolding drop send handle_service sendto rx read recvfrom sniff into_raw from_raw send_direct
    sent_over
total-Step q (gets w) = total-gets q w.free w.owned w.inside
total-Step q (drops p w h) = omega (arith, copies-remove q p w.owned h)
total-Step q (sends p w h) = omega (arith, copies-remove q p w.owned h)
total-Step q (handles p w h) = omega (arith, copies-remove q p w.owned h)
total-Step q (sends_to p w h) = omega (arith, copies-remove q p w.owned h)
total-Step q (hands_on p w h) = omega (arith, copies-remove q p w.owned h)
total-Step q (sends_direct p w h) = omega (arith, copies-remove q p w.owned h)
total-Step q (sends_over p w h) = omega (arith, copies-remove q p w.inside h)
total-Step q (reads p w h) = omega (arith, copies-remove q p w.inside h)
total-Step q (receives p w h) = omega (arith, copies-remove q p w.inside h)
total-Step q (sniffs p w h) = omega (arith, copies-remove q p w.inside h)
total-Step q (csp_frees p w h) = omega (arith, copies-remove q p w.inside h)
total-Step q (csp_allocates p w w' e) = total-allocates q p w.free w.owned w.inside w' e

total-Reachable :
    {pool : List ℕ} {w : Buffers} (q : ℕ) → Reachable pool w → total q w ≡ copies q pool
total-Reachable q starts = omega arith
total-Reachable q (goes_on r s) = total-Step q s ∙ total-Reachable q r

-- In every reachable state each buffer of the pool is in one place: in the pool, with one `Packet`
-- value, or inside libcsp. So a `Packet` value is never for a buffer that was freed or handed over.
pub owned-exclusive :
    {pool : List ℕ} {w : Buffers} (p : ℕ)
    → Reachable pool w
    → copies p pool ≡ 1
    → (total p w ≡ 1)
      × ((has p w.owned ≡ true)
          ↔ ((copies p w.owned ≡ 1) × (copies p w.free ≡ 0) × (copies p w.inside ≡ 0)))
owned-exclusive {w = w} p r h =
    ground (arith, total-Reachable p r, copies-has p w.owned, has-copies p w.owned)
