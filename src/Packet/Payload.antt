-- ===== src/Packet/Payload.antt =====
-- Writing a payload and reading it back.
use libcsp_rust.Base.{
  ℕ, ◌%◌, ◌^◌, ◌<◌, ◌≤◌, ◌≡◌, ◌↔◌, refl, arith, List, Bool, true, none, length, take, drop, min,
  write_at, write_at-zero, length-write_at, take-append, length-take, ap,
}
use libcsp_rust.Packet.{Packet, value, panic, set_length, payload, write}

-- The data union has the size that the build fixed.
abbrev pub IsSized : ℕ → Packet → Type 0
IsSized buffer_size p = length p.buffer ≡ buffer_size

module _ (buffer_size : ℕ) where
  -- Whatever the length field holds, the payload lies within the buffer.
  pub length-payload :
      (p : Packet)
      → IsSized buffer_size p
      → length (payload buffer_size p) ≡ min p.length' buffer_size
  unfolding payload
  length-payload p s = omega (arith, length-take (min p.length' buffer_size) p.buffer)

  payload_of :
      (p : Packet) (bytes : List ℕ)
      → IsSized buffer_size p
      → length bytes ≤ buffer_size
      → take (min (length bytes) buffer_size) (write_at p.buffer 0 bytes) ≡ bytes
  payload_of p bytes s h = rw (write_at-zero p.buffer bytes (omega arith)) (
      take-append (min (length bytes) buffer_size) bytes (drop (length bytes) p.buffer)
        (omega arith))

  pub stored_value :
      (debug : Bool) (p : Packet) (bytes : List ℕ)
      → buffer_size < 2 ^ 16
      → length bytes ≤ buffer_size
      → write buffer_size debug p bytes
        ≡ value (none, record p { length' = length bytes; buffer = write_at p.buffer 0 bytes })
  unfolding write set_length
  stored_value debug p bytes w h =
      let stored : ℕ → Packet = λ n. record p { length' = n; buffer = write_at p.buffer 0 bytes } in
      let same : min (length bytes % 2 ^ 16) buffer_size % 2 ^ 16 ≡ length bytes = omega arith in
      let e = ap stored same in ground arith

  -- Where the buffer size fits a u16, in either kind of build: bytes that fit are stored, the
  -- length field is their number, the payload reads back as those bytes, the id is kept and the
  -- buffer keeps its size.
  pub payload-write :
      (debug : Bool) (p : Packet) (bytes : List ℕ)
      → buffer_size < 2 ^ 16
      → IsSized buffer_size p
      → length bytes ≤ buffer_size
      → (q : Packet) × (write buffer_size debug p bytes ≡ value (none, q))
        × (payload buffer_size q ≡ bytes)
        × (q.length' ≡ length bytes)
        × (q.id ≡ p.id)
        × IsSized buffer_size q
  unfolding write payload set_length
  payload-write debug p bytes w s h = (
    record p { length' = length bytes; buffer = write_at p.buffer 0 bytes },
    stored_value debug p bytes w h,
    payload_of p bytes s h,
    refl,
    refl,
    omega (arith, length-write_at p.buffer 0 bytes),
  )

  -- Writing panics exactly in a debug build, on bytes that the buffer has room for and whose
  -- number is above `u16::MAX`.
  pub write-panic_iff :
      (debug : Bool) (p : Packet) (bytes : List ℕ)
      → (write buffer_size debug p bytes ≡ panic)
        ↔ ((debug ≡ true) × (2 ^ 16 ≤ length bytes) × (length bytes ≤ buffer_size))
  unfolding write
  write-panic_iff debug p bytes = ground arith
