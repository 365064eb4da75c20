-- ===== src/Connection/Metadata.antt =====
-- What src/connection.rs tells of a connection, from the C ints that libcsp returns.
use Prim.Native.Nat.{bit_and}
use libcsp_rust.Base.{ℕ, ◌-◌, ◌%◌, ◌^◌, ◌<◌, ◌≡◌, Bool, not, ◌==◌, arith}
use libcsp_rust.Base.Int.{ℤ, pos, negsuc}

-- The results of `csp_conn_dport`, `csp_conn_sport`, `csp_conn_dst`, `csp_conn_src`, `csp_conn_flags` and
-- `csp_conn_is_active`
pub record Conn : Type 0 where
  pub dport : ℤ
  pub sport : ℤ
  pub dst : ℤ
  pub src : ℤ
  pub flags : ℤ
  pub active : Bool

-- `as` from an i32 to a word of `w` bits, up to 32
abbrev pub as_word : ℕ → ℤ → ℕ
as_word w (pos n) = n % 2 ^ w
as_word w (negsuc n) = 2 ^ w - 1 - n % 2 ^ w

unfoldable pub dst_port : Conn → ℕ
dst_port c = as_word 8 c.dport

unfoldable pub src_port : Conn → ℕ
src_port c = as_word 8 c.sport

unfoldable pub dst_addr : Conn → ℕ
dst_addr c = as_word 16 c.dst

unfoldable pub src_addr : Conn → ℕ
src_addr c = as_word 16 c.src

unfoldable pub flags : Conn → ℤ
flags c = c.flags

-- The mask is a constant of libcsp.
unfoldable pub is_rdp : ℕ → Conn → Bool
unfolding flags
is_rdp csp_frdp c = not (bit_and (as_word 32 (flags c)) csp_frdp == 0)

unfoldable pub is_active : Conn → Bool
is_active c = c.active

-- Ports and addresses in the ranges of their types come through unchanged.
pub metadata-in_range :
    (c : Conn) (dport sport dst src : ℕ)
    → (c.dport ≡ pos dport) × (c.sport ≡ pos sport) × (c.dst ≡ pos dst) × (c.src ≡ pos src)
    → (dport < 2 ^ 8) × (sport < 2 ^ 8) × (dst < 2 ^ 16) × (src < 2 ^ 16)
    → (dst_port c ≡ dport) × (src_port c ≡ sport) × (dst_addr c ≡ dst) × (src_addr c ≡ src)
unfolding dst_port src_port dst_addr src_addr
metadata-in_range c dport sport dst src (d, s, e, t) (a, b, f, g) =
    (rw d (omega arith), rw s (omega arith), rw e (omega arith), rw t (omega arith))
