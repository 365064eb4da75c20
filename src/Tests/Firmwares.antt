-- ===== src/Tests/Firmwares.antt =====
-- The mutexes of the bare-metal backend, a `sem_t` and the stress test of the firmware at concrete inputs.
use libcsp_rust.Error.{ok}
use libcsp_rust.Connection.Sfp.Calls.{Request, Fragment}
use libcsp_rust.Connection.Sfp.Plain.{sfp_send, sfp_recv}
use libcsp_rust.Firmware.Receive.{receive_blob}
use libcsp_rust.Firmware.Blob.{receive_blob-sfp_send}
use libcsp_rust.Base.{
  ℕ, zero, suc, ◌+◌, ◌%◌, ◌^◌, ◌<◌, ◌≡◌, List, [], ◌∷◌, ◌++◌, length, take, Bool, true, false, none,
  some, ltb, leb, ◌==◌, if◌then◌else◌, refl, arith,
}
use libcsp_rust.Embassy.Mutex.{locks, unlocks, after, held, on, nested, interrupts-held}
use libcsp_rust.TestArch.PosixSemaphore.{Libc}
use libcsp_rust.Packet.{Packet, value, zero_id, payload}
use libcsp_rust.Stress.Payload.{make_payload}
use libcsp_rust.Stress.Receive.{Receiver, receive_all}
use libcsp_rust.Firmware.Can.{Bxcan, nexthop, can_rx, can_rx-nexthop}
use libcsp_rust.Stress.Transmit.{Turn, start}
use libcsp_rust.Stress.Transmit as Host
use libcsp_rust.Firmware.Transmit
use libcsp_rust.Firmware.Transmit.{send_turn-host}
use libcsp_rust.Firmware.Receive.{Totals, handle_all, receive_blobs, shorts, firmware-host}

interrupts-held_example :
    ((after (locks 3 ∷ unlocks 3 ∷ []) on).interrupts ≡ (held 0 (locks 3 ∷ unlocks 3 ∷ []) == 0))
    × ((after ((locks 3 ∷ unlocks 3 ∷ []) ++ nested 1 2) on).interrupts ≡ true)
    × (0 < held 0 ((locks 3 ∷ unlocks 3 ∷ []) ++ nested 1 2))
interrupts-held_example = interrupts-held (locks 3 ∷ unlocks 3 ∷ []) 1 2 (refl, (refl, tt))

abbrev lowered : ℕ → Bool × ℕ
lowered zero = (false, zero)
lowered (suc n) = (true, n)

abbrev raised : ℕ → Bool × ℕ
raised n = if ltb n 0x7FFFFFFF then (true, suc n) else (false, n)

-- A `sem_t` that is its value.
abbrev counting_libc : Libc
counting_libc = record {
  Sem = ℕ;
  sem_value_max = 0x7FFFFFFF;
  value = λ s. s;
  sem_init = λ n. some n;
  sem_timedwait = λ s timeout. lowered s;
  sem_post = raised;
  init_value = λ n s e. ground arith;
  wait_zero = λ s e. rw e (refl, refl);
  wait_suc = λ s n e. rw e (refl, refl);
  post_value = λ s h. ground arith;
}

-- Identifiers and data as numbers and bytes, tested for their sizes.
abbrev tested_can : Bxcan
tested_can = record {
  FrameId = ℕ;
  Data = List ℕ;
  extended_id = λ n. if ltb n (2 ^ 29) then some n else none;
  data_new = λ chunk. if leb (length chunk) 8 then some chunk else none;
  bytes = λ d. d;
  extended_id_fits = λ n h. (n, ground arith);
  data_fits = λ chunk h. (chunk, ground arith, refl);
}

abbrev nine_bytes : Packet
nine_bytes = record {
  id = record zero_id { dst = 5; dport = 11 };
  length' = 9;
  timestamp_rx = 0;
  buffer = 1 ∷ 2 ∷ 3 ∷ 4 ∷ 5 ∷ 6 ∷ 7 ∷ 8 ∷ 9 ∷ 0 ∷ [];
}

can_rx-nexthop_example :
    (id : ℕ) × (d : List ℕ) × (q : Packet) × (nexthop tested_can 10 5 nine_bytes ≡ some (id, d))
    × (can_rx tested_can 10 true (some nine_bytes) d ≡ value (some q))
    × (payload 10 q ≡ take 8 (payload 10 nine_bytes))
    × (q.id ≡ zero_id)
can_rx-nexthop_example =
    can_rx-nexthop tested_can 10 true 5 nine_bytes nine_bytes (omega arith) (omega arith)
      (omega arith)

abbrev none_seen : Receiver
none_seen = record { count = 0; bytes_recv = 0; errors = 0 }

abbrev none_tallied : Totals
none_tallied = record { bytes_recv = 0; errors = 0 }

-- A payload of the sender and one that is too short.
firmware-host_example :
    (handle_all (make_payload 0 20 ∷ (1 ∷ []) ∷ []) 0
      ≡ (receive_all (make_payload 0 20 ∷ (1 ∷ []) ∷ []) none_seen).count)
    × ((receive_blobs (make_payload 0 20 ∷ (1 ∷ []) ∷ []) none_tallied).bytes_recv
        ≡ (receive_all (make_payload 0 20 ∷ (1 ∷ []) ∷ []) none_seen).bytes_recv)
    × ((receive_all (make_payload 0 20 ∷ (1 ∷ []) ∷ []) none_seen).errors
        ≡ ((receive_blobs (make_payload 0 20 ∷ (1 ∷ []) ∷ []) none_tallied).errors
            + shorts (make_payload 0 20 ∷ (1 ∷ []) ∷ []))
          % 2 ^ 64)
firmware-host_example =
    firmware-host (make_payload 0 20 ∷ (1 ∷ []) ∷ []) none_seen none_tallied refl refl (omega arith)

-- A switch of the mode to one with connections, and a packet over the new connection
abbrev switch_and_send : Turn
switch_and_send = record { due = true; packet = true; connected = true; transferred = true }

send_turn-host_example :
    Transmit.send_turn 256 switch_and_send start ≡ Host.send_turn 256 switch_and_send start
unfolding start
send_turn-host_example = send_turn-host 256 switch_and_send start

-- A blob of 9 bytes, asked for in two pieces
abbrev two_pieces : List Request
two_pieces = (8, 0) ∷ (1, 8) ∷ []

abbrev nothing_yet : Totals
nothing_yet = record { bytes_recv = 0; errors = 0 }

receive_blob-sfp_send_example :
    (frags : List Fragment) × (sfp_send (make_payload 6 9) two_pieces ≡ some (ok tt, frags))
    × (receive_blob (sfp_recv (2 ^ 32) 9 frags) nothing_yet
        ≡ record nothing_yet { bytes_recv = (0 + 9) % 2 ^ 64 })
receive_blob-sfp_send_example =
    receive_blob-sfp_send (2 ^ 32) 6 9 two_pieces nothing_yet (omega arith) (omega arith)
      (omega arith) (omega arith) (refl, (refl, refl))
