-- ===== src/Firmware/Receive.antt =====
-- embassy-example/src/bin/stress_rx.rs: the handler of the data port and what follows a transfer. The
-- handler moves its own copy of `count`, so the totals of `main` keep theirs at 0.
use libcsp_rust.Base.{
  ℕ, ◌+◌, ◌%◌, ◌^◌, ◌<◌, ◌≡◌, List, [], ◌∷◌, Bool, true, false, none, ltb, length, if◌then◌else◌,
  refl, arith, ◌∙◌, ap, Bool-cases, inl, inr,
}
use libcsp_rust.Error.{Result, ok, err}
use libcsp_rust.Service.{ServiceHandler}
use libcsp_rust.Stress.Payload.{Verdict, too_short, checked, check_payload}
use libcsp_rust.Stress.Receive.{Receiver, receive, receive_all, noted}

-- `bytes_recv` and `errors` of `main`, u64
pub record Totals : Type 0 where
  pub bytes_recv : ℕ
  pub errors : ℕ

unfoldable pub counted : Verdict → ℕ → ℕ
counted too_short count = count
counted (checked pkt_count matches) count = (count + 1) % 2 ^ 64

-- The handler of DATA_PORT, on the payload of the packet; it never replies.
unfoldable pub handle_data : ServiceHandler ℕ (List ℕ)
unfolding counted
handle_data bytes count = (none, counted (check_payload bytes) count)

unfoldable pub tallied : ℕ → Verdict → Totals → Totals
tallied size too_short t = t
tallied size (checked pkt_count matches) t = record {
  errors = if matches then t.errors else (t.errors + 1) % 2 ^ 64;
  bytes_recv = (t.bytes_recv + size) % 2 ^ 64;
}

-- `match conn.sfp_recv(1000)`
unfoldable pub receive_blob : Result (List ℕ) → Totals → Totals
unfolding tallied
receive_blob (ok bytes) t = tallied (length bytes) (check_payload bytes) t
receive_blob (err e) t = record t { errors = (t.errors + 1) % 2 ^ 64 }

-- The handler on one payload after another.
abbrev pub handle_all : List (List ℕ) → ℕ → ℕ
handle_all [] count = count
handle_all (bytes ∷ rest) count = handle_all rest (handle_data bytes count).1

-- The transfers that succeed, one after another.
abbrev pub receive_blobs : List (List ℕ) → Totals → Totals
receive_blobs [] t = t
receive_blobs (bytes ∷ rest) t = receive_blobs rest (receive_blob (ok bytes) t)

-- Whether a payload is too short for its counter.
abbrev pub is_short : List ℕ → Bool
is_short bytes = ltb (length bytes) 8

abbrev pub shorts : List (List ℕ) → ℕ
shorts [] = 0
shorts (bytes ∷ rest) = (if is_short bytes then 1 else 0) + shorts rest

abbrev missed : Verdict → ℕ
missed too_short = 1
missed (checked n matches) = 0

-- The numbers of the two programs after one payload.
counted-noted : (size : ℕ) (v : Verdict) (r : Receiver) → counted v r.count ≡ (noted size v r).count
unfolding counted noted
counted-noted size too_short r = refl
counted-noted size (checked n matches) r = refl

tallied-bytes :
    (size : ℕ) (v : Verdict) (r : Receiver) (t : Totals)
    → t.bytes_recv ≡ r.bytes_recv
    → (tallied size v t).bytes_recv ≡ (noted size v r).bytes_recv
unfolding noted tallied
tallied-bytes size too_short r t e = e
tallied-bytes size (checked n matches) r t e = ap (λ b. (b + size) % 2 ^ 64) e

tallied-errors :
    (size k : ℕ) (v : Verdict) (r : Receiver) (t : Totals)
    → r.errors ≡ (t.errors + k) % 2 ^ 64
    → (noted size v r).errors ≡ ((tallied size v t).errors + (k + missed v)) % 2 ^ 64
unfolding noted tallied
tallied-errors size k too_short r t e = omega (arith, e)
tallied-errors size k (checked n true) r t e = omega (arith, e)
tallied-errors size k (checked n false) r t e = omega (arith, e)

missed-check : (bytes : List ℕ) → missed (check_payload bytes) ≡ (if is_short bytes then 1 else 0)
unfolding check_payload
missed-check bytes = elim (Bool-cases (is_short bytes)) [ inl e ↦ rw e refl | inr e ↦ rw e refl ]

handle_all-count :
    (payloads : List (List ℕ)) (r : Receiver)
    → handle_all payloads r.count ≡ (receive_all payloads r).count
unfolding handle_data receive receive_all
handle_all-count [] r = refl
handle_all-count (bytes ∷ rest) r =
    ap (handle_all rest) (counted-noted (length bytes) (check_payload bytes) r)
    ∙ handle_all-count rest (receive bytes r)

receive_blobs-bytes :
    (payloads : List (List ℕ)) (r : Receiver) (t : Totals)
    → t.bytes_recv ≡ r.bytes_recv
    → (receive_blobs payloads t).bytes_recv ≡ (receive_all payloads r).bytes_recv
unfolding receive_blob receive receive_all
receive_blobs-bytes [] r t e = e
receive_blobs-bytes (bytes ∷ rest) r t e =
    receive_blobs-bytes rest (receive bytes r) (receive_blob (ok bytes) t)
      (tallied-bytes (length bytes) (check_payload bytes) r t e)

receive_blobs-errors :
    (payloads : List (List ℕ)) (k : ℕ) (r : Receiver) (t : Totals)
    → r.errors ≡ (t.errors + k) % 2 ^ 64
    → (receive_all payloads r).errors
      ≡ ((receive_blobs payloads t).errors + (k + shorts payloads)) % 2 ^ 64
unfolding receive_blob receive receive_all
receive_blobs-errors [] k r t e = omega (arith, e)
receive_blobs-errors (bytes ∷ rest) k r t e =
    let v = check_payload bytes in
    omega (
      arith,
      missed-check bytes,
      receive_blobs-errors rest (k + missed v) (receive bytes r) (receive_blob (ok bytes) t)
          (tallied-errors (length bytes) k v r t e),
    )

-- From totals that agree, the firmware and the program on the host count alike what they receive: the
-- handler of the data port ends with the host's count, and the loop over transfers that succeed with the host's
-- bytes and with its errors less one for each payload that is too short for a counter. The counts are u64.
pub firmware-host :
    (payloads : List (List ℕ)) (r : Receiver) (t : Totals)
    → t.bytes_recv ≡ r.bytes_recv
    → t.errors ≡ r.errors
    → r.errors < 2 ^ 64
    → (handle_all payloads r.count ≡ (receive_all payloads r).count)
      × ((receive_blobs payloads t).bytes_recv ≡ (receive_all payloads r).bytes_recv)
      × ((receive_all payloads r).errors
          ≡ ((receive_blobs payloads t).errors + shorts payloads) % 2 ^ 64)
firmware-host payloads r t b e w = (
  handle_all-count payloads r,
  receive_blobs-bytes payloads r t b,
  omega (arith, receive_blobs-errors payloads 0 r t (omega (arith, e, w))),
)
