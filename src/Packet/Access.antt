-- ===== src/Packet/Access.antt =====
-- The accessors of src/packet.rs that read or write one field, and its mutable views. A mutable view is
-- the bytes that it shows, and the packet when other bytes of that number are put there.
use libcsp_rust.Base.{
  ℕ, ◌^◌, ◌≤◌, ◌<◌, ◌≡◌, refl, sym, ap, ◌∙◌, arith, List, ◌++◌, Bool, Option, none, min, length,
  take, take_all, take-append, drop, drop_all, append-nil, ap₂, write_at, write_at-zero,
  length-write_at, length-take,
}
use libcsp_rust.Packet.{PacketId, Packet, Checked, value, payload, set_length, write}
use libcsp_rust.Packet.Payload.{IsSized, stored_value}

unfoldable pub length_field : Packet → ℕ
length_field p = p.length'

unfoldable pub hw_timestamp_rx : Packet → ℕ
hw_timestamp_rx p = p.timestamp_rx

unfoldable pub id : Packet → PacketId
id p = p.id

unfoldable pub set_id : Packet → PacketId → Packet
set_id p i = record p { id = i }

unfoldable pub src_addr : Packet → ℕ
unfolding id
src_addr p = (id p).src

unfoldable pub dst_addr : Packet → ℕ
unfolding id
dst_addr p = (id p).dst

unfoldable pub dst_port : Packet → ℕ
unfolding id
dst_port p = (id p).dport

unfoldable pub src_port : Packet → ℕ
unfolding id
src_port p = (id p).sport

unfoldable pub flags : Packet → ℕ
unfolding id
flags p = (id p).flags

abbrev pub View : Type 0
View = List ℕ × (List ℕ → Packet)

abbrev put_bytes : Packet → List ℕ → Packet
put_bytes p bytes = record p { buffer = write_at p.buffer 0 bytes }

-- To overlay a list by all of it, with some of it overlaid before
overlaid : (buf bytes : List ℕ) → write_at buf 0 (write_at buf 0 bytes) ≡ write_at buf 0 bytes
overlaid buf bytes =
    let whole = write_at buf 0 bytes in
    let size = length-write_at buf 0 bytes in
    write_at-zero buf whole (omega (arith, size))
    ∙ ap (λ rest. whole ++ rest) (drop_all (length whole) buf (omega (arith, size)))
    ∙ append-nil whole

module _ (buffer_size : ℕ) where
  unfoldable pub data_mut : Packet → View
  unfolding length_field
  data_mut p = (take (min (length_field p) buffer_size) p.buffer, put_bytes p)

  unfoldable pub data_buf_mut : Packet → View
  data_buf_mut p = (take buffer_size p.buffer, put_bytes p)

  -- What is put through `data_mut` is the payload then, and nothing else of the packet changes.
  pub payload-data_mut :
      (p : Packet) (bytes : List ℕ)
      → IsSized buffer_size p
      → length bytes ≡ length (data_mut p).0
      → (payload buffer_size ((data_mut p).1 bytes) ≡ bytes)
        × (set_id ((data_mut p).1 bytes) (id p) ≡ (data_mut p).1 bytes)
        × IsSized buffer_size ((data_mut p).1 bytes)
  unfolding data_mut payload length_field set_id id
  payload-data_mut p bytes s e =
      let n = min p.length' buffer_size in
      let short : length bytes ≡ n = omega (arith, length-take n p.buffer, e, s) in
      (
        ap (take n) (write_at-zero p.buffer bytes (omega (arith, s, short)))
            ∙ take-append n bytes (drop (length bytes) p.buffer) (sym short),
        refl,
        omega (arith, length-write_at p.buffer 0 bytes, s),
      )

  -- To fill the view of the whole buffer and then set the length is to write, where the bytes fit.
  pub data_buf_mut-write :
      (debug : Bool) (p : Packet) (bytes : List ℕ)
      → buffer_size < 2 ^ 16
      → IsSized buffer_size p
      → length bytes ≤ buffer_size
      → write buffer_size debug p bytes
        ≡ value (
          none,
          set_length buffer_size
              ((data_buf_mut p).1 (write_at (data_buf_mut p).0 0 bytes))
              (length bytes),
        )
  unfolding data_buf_mut set_length
  data_buf_mut-write debug p bytes w s h =
      let all : take buffer_size p.buffer ≡ p.buffer =
        take_all buffer_size p.buffer (omega (arith, s)) in
      stored_value buffer_size debug p bytes w h
      ∙ ap₂ {C = Checked (Option ℕ × Packet)}
          (λ n b. value (none, record p { length' = n; buffer = b })) (omega (arith, w, h))
          (sym (ap (λ b. write_at p.buffer 0 (write_at b 0 bytes)) all ∙ overlaid p.buffer bytes))
