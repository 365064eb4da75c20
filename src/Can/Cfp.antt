-- ===== src/Can/Cfp.antt =====
-- The module `cfp` of src/can.rs. `as u8` and the u32 shifts are written out.
use Prim.Native.Nat.{bit_and}
use libcsp_rust.Base.{ℕ, ◌+◌, ◌-◌, ◌*◌, ◌/◌, ◌%◌, ◌^◌, ◌<◌, ◌≤◌, ◌≡◌, ◌↔◌, arith}
use libcsp_rust.Base.Bits.{bit_and_mask}

abbrev pub host_bits : ℕ
host_bits = 5

abbrev pub type_bits : ℕ
type_bits = 1

abbrev pub remain_bits : ℕ
remain_bits = 8

abbrev pub id_bits : ℕ
id_bits = 10

abbrev pub host_mask : ℕ
host_mask = 2 ^ host_bits - 1

abbrev pub dst_shift : ℕ
dst_shift = type_bits + remain_bits + id_bits

abbrev pub src_shift : ℕ
src_shift = host_bits + type_bits + remain_bits + id_bits

abbrev pub broadcast_addr : ℕ
broadcast_addr = host_mask % 2 ^ 8

unfoldable pub make_dst : ℕ → ℕ
make_dst dst = bit_and dst host_mask * 2 ^ dst_shift % 2 ^ 32

unfoldable pub make_src : ℕ → ℕ
make_src src = bit_and src host_mask * 2 ^ src_shift % 2 ^ 32

unfoldable pub dst : ℕ → ℕ
dst id = bit_and (id / 2 ^ dst_shift) host_mask % 2 ^ 8

unfoldable pub src : ℕ → ℕ
src id = bit_and (id / 2 ^ src_shift) host_mask % 2 ^ 8

-- The two fields and any lower fields do not disturb one another: from their sum each address
-- comes back, cut to 5 bits, and the sum is a 29-bit identifier.
pub fields_roundtrip :
    (s d low : ℕ)
    → low < 2 ^ dst_shift
    → let id = make_src s + make_dst d + low in
      (src id ≡ s % 32) × (dst id ≡ d % 32) × (id < 2 ^ 29)
unfolding make_dst make_src dst src
fields_roundtrip s d low h =
    let id = make_src s + make_dst d + low in
    omega (
      arith,
      bit_and_mask 5 s,
      bit_and_mask 5 d,
      bit_and_mask 5 (id / 2 ^ src_shift),
      bit_and_mask 5 (id / 2 ^ dst_shift),
    )

-- Whatever the identifier, both addresses have 5 bits; the destination is the broadcast address
-- exactly when its five bits are all ones.
pub addresses_in_range :
    (id : ℕ)
    → (src id ≤ broadcast_addr)
      × (dst id ≤ broadcast_addr)
      × ((dst id ≡ broadcast_addr) ↔ (id / 2 ^ dst_shift % 32 ≡ 31))
unfolding dst src
addresses_in_range id =
    let s = bit_and_mask 5 (id / 2 ^ src_shift) in
    let d = bit_and_mask 5 (id / 2 ^ dst_shift) in
    (omega (arith, s), omega (arith, d), (λ e. omega (arith, d, e), λ e. omega (arith, d, e)))
