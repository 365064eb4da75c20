-- ===== src/Packet.antt =====
-- src/packet.rs: the accessors of a packet, over the fields of `csp_packet_t` that they use. The
-- buffer size is a build-time constant, so it is a parameter.
pub mod Payload
pub mod Access
pub mod Ownership
use Prim.Native.Nat.{bit_and}
use libcsp_rust.Base.{
  ℕ, ◌%◌, ◌^◌, List, Bool, true, false, not, ◌&&◌, Option, none, some, ◌-◌, ltb, leb, ◌==◌,
  if◌then◌else◌, length, take, min, write_at, replicate,
}

-- `csp_id_t`
pub record PacketId : Type 0 where
  pub pri : ℕ
  pub flags : ℕ
  pub src : ℕ
  pub dst : ℕ
  pub dport : ℕ
  pub sport : ℕ

-- `buffer` is the data union, the last field of the C struct; `length'` is its `length`.
pub record Packet : Type 0 where
  pub id : PacketId
  pub length' : ℕ
  pub timestamp_rx : ℕ
  pub buffer : List ℕ

-- `enum Priority` of src/lib.rs
pub data Priority : Type 0 where
  critical high norm low : Priority

abbrev pub zero_id : PacketId
zero_id = record { pri = 0; flags = 0; src = 0; dst = 0; dport = 0; sport = 0 }

-- The value, or a panic of a debug build.
pub data Checked {ℓ} (A : Type ℓ) : Type ℓ where
  value : A → Checked A
  panic : Checked A

-- `Priority` of the id; 4 and above panics in a debug build.
unfoldable pub priority : Bool → Packet → Checked Priority
priority debug p =
    if p.id.pri == 0
    then value critical
    else (if p.id.pri == 1
        then value high
        else (if p.id.pri == 2
            then value norm
            else (if p.id.pri == 3 then value low else (if debug then panic else value norm))))

-- `(flags & bit) != 0`, for the flag constants of libcsp.
unfoldable pub has_flag : ℕ → Packet → Bool
has_flag flag p = not (bit_and p.id.flags (flag % 2 ^ 8) == 0)

module _ (buffer_size : ℕ) where
  -- `csp_buffer_get(0)` gives a buffer with what its last user left, or null. `write_bytes` zeroes
  -- the whole struct.
  unfoldable pub get : Option Packet → Option Packet
  get none = none
  get (some stale) =
      some
        (record { id = zero_id; length' = 0; timestamp_rx = 0; buffer = replicate buffer_size 0 })

  -- `len` is a u16.
  unfoldable pub set_length : Packet → ℕ → Packet
  set_length p len = record p { length' = min len buffer_size % 2 ^ 16 }

  unfoldable pub payload : Packet → List ℕ
  payload p = take (min p.length' buffer_size) p.buffer

  -- `Err` carries the length; in a debug build a length above `u16::MAX` panics.
  unfoldable pub write : Bool → Packet → List ℕ → Checked (Option ℕ × Packet)
  unfolding set_length
  write debug p bytes =
      if ltb buffer_size (length bytes)
      then value (some (length bytes), p)
      else (if debug && ltb (2 ^ 16 - 1) (length bytes)
          then panic
          else value (
            none,
            set_length (record p { buffer = write_at p.buffer 0 bytes }) (length bytes % 2 ^ 16),
          ))
