-- ===== src/Firmware/Can.antt =====
-- The toy CAN interface of embassy-example/src/bin/stress_tx.rs and stress_rx.rs: a packet goes out as
-- one frame, and each frame that arrives becomes a packet. The CAN library bxcan is a parameter.
use libcsp_rust.Base.{
  ℕ, ◌^◌, ◌≤◌, ◌<◌, ◌≡◌, List, Bool, Option, none, some, refl, arith, ◌∙◌, length, take, replicate,
  length-take, length-replicate,
}
use libcsp_rust.Packet.{Packet, zero_id, Checked, value, panic, get, write, payload}
use libcsp_rust.Packet.Payload.{payload-write}

-- Identifiers of 29 bits, and data of at most 8 bytes.
pub record Bxcan : Type 1 where
  pub FrameId : Type 0
  pub Data : Type 0
  pub extended_id : ℕ → Option FrameId
  pub data_new : List ℕ → Option Data
  pub bytes : Data → List ℕ
  pub extended_id_fits : (n : ℕ) → n < 2 ^ 29 → (i : FrameId) × (extended_id n ≡ some i)
  pub data_fits :
      (chunk : List ℕ)
      → length chunk ≤ 8
      → (d : Data) × (data_new chunk ≡ some d) × (bytes d ≡ chunk)

module _ (can : Bxcan) (buffer_size : ℕ) where
  open can use {FrameId, Data, extended_id, data_new, bytes}

  unfoldable pub framed : FrameId → Option Data → Option (FrameId × Data)
  framed id none = none
  framed id (some d) = some (id, d)

  unfoldable pub addressed : Option FrameId → Option Data → Option (FrameId × Data)
  unfolding framed
  addressed none d = none
  addressed (some id) d = framed id d

  -- The frame that `nexthop` hands to the controller, if any.
  unfoldable pub nexthop : ℕ → Packet → Option (FrameId × Data)
  unfolding addressed
  nexthop via pkt = addressed (extended_id via) (data_new (take 8 (payload buffer_size pkt)))

  -- `unwrap` on the result of `write`
  unfoldable pub written : Checked (Option ℕ × Packet) → Checked (Option Packet)
  written panic = panic
  written (value (some size, pkt)) = panic
  written (value (none, pkt)) = value (some pkt)

  unfoldable pub filled : Bool → Option Packet → Data → Checked (Option Packet)
  unfolding written
  filled debug none d = value none
  filled debug (some pkt) d = written (write buffer_size debug pkt (bytes d))

  -- `can_rx_task`: the packet that the router gets for the data of a frame. `stale` is what the pool
  -- gives.
  unfoldable pub can_rx : Bool → Option Packet → Data → Checked (Option Packet)
  unfolding filled
  can_rx debug stale d = filled debug (get buffer_size stale) d

-- Where the pool gives the receiver a buffer, what `nexthop` puts on the bus always arrives as a packet,
-- but only the first 8 bytes of its payload arrive, and nothing of its header: the packet comes from
-- address 0 and port 0, to address 0 and port 0, without flags.
pub can_rx-nexthop :
    (can : Bxcan) (buffer_size : ℕ) (debug : Bool) (via : ℕ) (pkt stale : Packet)
    → buffer_size < 2 ^ 16
    → 8 ≤ buffer_size
    → via < 2 ^ 16
    → (id : can.FrameId) × (d : can.Data) × (q : Packet) × (nexthop can buffer_size via pkt
        ≡ some (id, d))
      × (can_rx can buffer_size debug (some stale) d ≡ value (some q))
      × (payload buffer_size q ≡ take 8 (payload buffer_size pkt))
      × (q.id ≡ zero_id)
unfolding nexthop addressed framed can_rx filled written get
can_rx-nexthop can buffer_size debug via pkt stale w b v =
    let chunk = take 8 (payload buffer_size pkt) in
    let short : length chunk ≤ 8 = omega (arith, length-take 8 (payload buffer_size pkt)) in
    let (id, e) = can.extended_id_fits via (omega arith) in
    let (d, f, g) = can.data_fits chunk short in
    let fresh : Packet = record {
      id = zero_id;
      length' = 0;
      timestamp_rx = 0;
      buffer = replicate buffer_size 0;
    } in
    let (q, stored, reads, _, kept, _) =
      payload-write buffer_size debug fresh (can.bytes d) w (length-replicate buffer_size 0)
        (rw g (omega (arith, short))) in
    (id, d, q, rw (e, f) refl, rw stored refl, reads ∙ g, kept)
