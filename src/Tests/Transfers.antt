-- ===== src/Tests/Transfers.antt =====
-- Transactions, connections and transfers at concrete inputs.
use libcsp_rust.Base.{
  ℕ, ◌+◌, ◌%◌, ◌^◌, ◌-◌, ◌≡◌, ◌<◌, ◌↔◌, refl, arith, List, [], ◌∷◌, Bool, true, none, some, length,
}
use libcsp_rust.Base.{drop as drop_list, zero, suc, false, ◌==◌, if◌then◌else◌}
use libcsp_rust.Base.Int.{ℤ, pos, negsuc, ◌==ℤ◌}
use libcsp_rust.Base.Places.{has, copies}
use libcsp_rust.Connection.Exchange.{Libcsp}
use libcsp_rust.Connection.Lifetime.{
  Conns, connect, drop, from_raw, total, Reachable, starts, goes_on, connects, drops,
  held-exclusive,
}
use libcsp_rust.Error.{ok}
use libcsp_rust.Connection.Sfp.{read_cb}
use libcsp_rust.Connection.Sfp.Calls.{Request, Fragment}
use libcsp_rust.Connection.Sfp.Send.{read_cb-fault_iff, sfp_send_with_progress}
use libcsp_rust.Connection.Sfp.Receive.{sfp_recv_with_progress}
use libcsp_rust.Connection.Sfp.RoundTrip.{sfp_recv-sfp_send}

abbrev count_sent : ℕ → ℕ → ℕ → Bool × ℕ
count_sent s sent total = (true, s + 1)

abbrev count_received : ℕ → ℕ → ℕ → List ℕ → Bool × ℕ
count_received s received total prefix = (true, s + 1)

-- Five bytes asked for in pieces of two.
abbrev blob : List ℕ
blob = 10 ∷ 11 ∷ 12 ∷ 13 ∷ 14 ∷ []

abbrev requests : List Request
requests = (2, 0) ∷ (2, 2) ∷ (1, 4) ∷ []

read_cb-fault_example :
    (read_cb count_sent blob 2 4 0 ≡ none)
    ↔ ((length blob % 2 ^ 32 ≡ 2 ^ 32 - 1) × (length blob < 4 + 2))
read_cb-fault_example = read_cb-fault_iff count_sent blob 2 4 0

sfp_recv-sfp_send_example :
    (frags : List Fragment) × (s' : ℕ) × (sfp_send_with_progress count_sent blob requests 0
      ≡ some (ok tt, frags, s'))
    × ((sfp_recv_with_progress (2 ^ 32) count_received 5 frags 0).0 ≡ ok blob)
sfp_recv-sfp_send_example =
    sfp_recv-sfp_send (2 ^ 32) count_sent count_received (λ s n total. refl)
      (λ t n total prefix. refl) blob requests 0 0 (omega arith) (omega arith)
      (refl, (refl, (refl, refl)))

-- libcsp over a link whose other end answers with the request itself.
abbrev asked_for : ℤ → List ℕ → ℤ × List ℕ
asked_for (pos zero) out = (pos 1, [])
asked_for (pos (suc m)) out = if length out == suc m then (pos (suc m), out) else (pos 0, [])
asked_for (negsuc m) out = (pos (length out), out)

abbrev echoing : Libcsp
echoing = record {
  csp_transaction = λ out out_len in_len. asked_for in_len out;
  fails = λ out out_len in_len n e h. fails out in_len n e h;
  replies = λ out out_len in_len n e h. replies out in_len n e h;
  asked = λ out out_len m n h. asked out m n h;
}
  where
    fails :
        (out : List ℕ) (in_len : ℤ) (n : ℕ)
        → (in_len ==ℤ pos 0) ≡ false
        → (asked_for in_len out).0 ≡ negsuc n
        → (asked_for in_len out).1 ≡ []
    fails out (pos zero) n e h = ground arith
    fails out (pos (suc m)) n e h = ground arith
    fails out (negsuc m) n e h = ground arith

    replies :
        (out : List ℕ) (in_len : ℤ) (n : ℕ)
        → (in_len ==ℤ pos 0) ≡ false
        → (asked_for in_len out).0 ≡ pos n
        → length (asked_for in_len out).1 ≡ n
    replies out (pos zero) n e h = ground arith
    replies out (pos (suc m)) n e h = ground arith
    replies out (negsuc m) n e h = ground arith

    asked : (out : List ℕ) (m n : ℕ) → (asked_for (pos (suc m)) out).0 ≡ pos (suc n) → n ≡ m
    asked out m n h = ground arith

-- A reply of five bytes for a buffer of two
abbrev two_bytes : List ℕ
two_bytes = 0 ∷ 0 ∷ []

-- A connection is made and dropped, and another accepted.
abbrev opened : Conns
opened =
    (connect (some 7)
      (record { free = 7 ∷ 8 ∷ []; inside = []; held = []; given = 0; closed = 0 })).1

abbrev dropped : Conns
dropped = drop 7 opened

dropped-Reachable : Reachable (7 ∷ 8 ∷ []) dropped
unfolding connect from_raw
dropped-Reachable = goes_on (goes_on starts (connects 7 _ refl)) (drops 7 opened refl)

held-exclusive_example :
    (total 7 dropped ≡ 1)
    × ((has 7 dropped.held ≡ true) ↔ (
        (copies 7 dropped.held ≡ 1) × (copies 7 dropped.free ≡ 0) × (copies 7 dropped.inside ≡ 0)))
    × (dropped.given ≡ dropped.closed + length dropped.held)
held-exclusive_example = held-exclusive 7 dropped-Reachable refl
