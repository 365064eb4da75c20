-- ===== src/Tests/Unit.antt =====
-- The unit tests of src/error.rs, src/lib.rs and src/packet.rs, run on the model. A packet is one that libcsp
-- gives with whatever `stale` holds, of 256 bytes; debug assertions are on.
use libcsp_rust.Base.{ℕ, ◌*◌, ◌≡◌, refl, List, [], ◌∷◌, true, Option, none, some, take, replicate}
use libcsp_rust.Base.Int.{pos, negsuc}
use libcsp_rust.Error.{
  no_memory, invalid_argument, timed_out, hmac_failed, sfp_error, aborted, other, csp_err_aborted,
  from_code, ok, err, csp_result,
}
use libcsp_rust.Port.{cmp, ping, any, custom, from_u8, to_u8}
use libcsp_rust.Packet.{Packet, value, panic, critical, priority, get, set_length, payload, write}
use libcsp_rust.Packet.Access.{
  length_field, src_addr, dst_addr, src_port, dst_port, flags, data_mut,
}

unfoldable TestErrorMapping : Type 0
TestErrorMapping =
    (from_code (negsuc 0) ≡ no_memory)
    × (from_code (negsuc 1) ≡ invalid_argument)
    × (from_code (negsuc 2) ≡ timed_out)
    × (from_code (negsuc 99) ≡ hmac_failed)
    × (from_code (negsuc 102) ≡ sfp_error)
    × (from_code csp_err_aborted ≡ aborted)
    × (from_code (negsuc 998) ≡ other (negsuc 998))

error_mapping_passes : TestErrorMapping
unfolding TestErrorMapping from_code
error_mapping_passes = (refl, refl, refl, refl, refl, refl, refl)

unfoldable TestCspResult : Type 0
TestCspResult = (csp_result (pos 0) ≡ ok tt) × (csp_result (negsuc 0) ≡ err no_memory)

csp_result_passes : TestCspResult
unfolding TestCspResult csp_result from_code
csp_result_passes = (refl, refl)

unfoldable TestPortMapping : Type 0
TestPortMapping =
    (to_u8 cmp ≡ 0)
    × (to_u8 ping ≡ 1)
    × (to_u8 any ≡ 255)
    × (to_u8 (custom 10) ≡ 10)
    × (from_u8 0 ≡ cmp)
    × (from_u8 1 ≡ ping)
    × (from_u8 255 ≡ any)
    × (from_u8 10 ≡ custom 10)

port_mapping_passes : TestPortMapping
unfolding TestPortMapping to_u8 from_u8
port_mapping_passes = (refl, refl, refl, refl, refl, refl, refl, refl)

-- `expect` on a packet, and on a write
abbrev got : Option Packet → Packet → Packet
got none p = p
got (some p) q = p

abbrev written : Packet → List ℕ → Packet
written p bytes = elim (write 256 true p bytes) [ panic ↦ p | value (refused, p') ↦ p' ]

module _ (stale : Packet) where
  abbrev fresh : Packet
  fresh = got (get 256 (some stale)) stale

  unfoldable TestPacketGetWriteRead : Type 0
  TestPacketGetWriteRead =
      let pkt = written fresh (116 ∷ 101 ∷ 115 ∷ 116 ∷ 32 ∷ 100 ∷ 97 ∷ 116 ∷ 97 ∷ []) in
      (length_field fresh ≡ 0)
      × (length_field pkt ≡ 9)
      × (payload 256 pkt ≡ 116 ∷ 101 ∷ 115 ∷ 116 ∷ 32 ∷ 100 ∷ 97 ∷ 116 ∷ 97 ∷ [])
      × (take 1 (
            payload 256
              ((data_mut 256 pkt).1 (88 ∷ 101 ∷ 115 ∷ 116 ∷ 32 ∷ 100 ∷ 97 ∷ 116 ∷ 97 ∷ [])))
          ≡ 88 ∷ [])

  get_write_read_passes : TestPacketGetWriteRead
  unfolding TestPacketGetWriteRead get write set_length payload length_field data_mut
  get_write_read_passes = (refl, refl, refl, refl)

  unfoldable TestPacketOverflow : Type 0
  TestPacketOverflow = write 256 true fresh (replicate (256 * 4) 0) ≡ value (some 1024, fresh)

  overflow_passes : TestPacketOverflow
  unfolding TestPacketOverflow get write
  overflow_passes = refl

  unfoldable TestPacketInitialization : Type 0
  TestPacketInitialization =
      (length_field fresh ≡ 0)
      × (src_addr fresh ≡ 0)
      × (dst_addr fresh ≡ 0)
      × (src_port fresh ≡ 0)
      × (dst_port fresh ≡ 0)
      × (flags fresh ≡ 0)
      × (priority true fresh ≡ value critical)

  initialization_passes : TestPacketInitialization
  unfolding TestPacketInitialization get length_field src_addr dst_addr src_port dst_port flags
      priority
  initialization_passes = (refl, refl, refl, refl, refl, refl, refl)

  unfoldable TestPacketWriteOverwrites : Type 0
  TestPacketWriteOverwrites =
      let hello = written fresh (104 ∷ 101 ∷ 108 ∷ 108 ∷ 111 ∷ []) in
      let world = written hello (119 ∷ 111 ∷ 114 ∷ 108 ∷ 100 ∷ []) in
      let both =
        written world (104 ∷ 101 ∷ 108 ∷ 108 ∷ 111 ∷ 32 ∷ 119 ∷ 111 ∷ 114 ∷ 108 ∷ 100 ∷ []) in
      (length_field hello ≡ 5)
      × (payload 256 hello ≡ 104 ∷ 101 ∷ 108 ∷ 108 ∷ 111 ∷ [])
      × (length_field world ≡ 5)
      × (payload 256 world ≡ 119 ∷ 111 ∷ 114 ∷ 108 ∷ 100 ∷ [])
      × (length_field both ≡ 11)
      × (payload 256 both ≡ 104 ∷ 101 ∷ 108 ∷ 108 ∷ 111 ∷ 32 ∷ 119 ∷ 111 ∷ 114 ∷ 108 ∷ 100 ∷ [])

  write_overwrites_passes : TestPacketWriteOverwrites
  unfolding TestPacketWriteOverwrites get write set_length payload length_field
  write_overwrites_passes = (refl, refl, refl, refl, refl, refl)

  unfoldable TestPacketSetLength : Type 0
  TestPacketSetLength =
      (length_field (set_length 256 fresh 10) ≡ 10)
      × (length_field (set_length 256 (set_length 256 fresh 10) 0) ≡ 0)

  set_length_passes : TestPacketSetLength
  unfolding TestPacketSetLength get set_length length_field
  set_length_passes = (refl, refl)

  -- The packet that was written is the stale one.
  unfoldable TestPacketReuseBuffer : Type 0
  TestPacketReuseBuffer =
      let again =
        got (get 256 (some (written fresh (111 ∷ 108 ∷ 100 ∷ 32 ∷ 100 ∷ 97 ∷ 116 ∷ 97 ∷ []))))
          stale in
      (length_field again ≡ 0) × (src_addr again ≡ 0)

  reuse_buffer_passes : TestPacketReuseBuffer
  unfolding TestPacketReuseBuffer get length_field src_addr
  reuse_buffer_passes = (refl, refl)
