-- ===== src/Connection/Exchange.antt =====
-- `Connection::transaction` of src/connection.rs with the reply buffer that it hands to libcsp. The
-- exchange of libcsp is a parameter.
use libcsp_rust.Base.{ℕ, suc, ◌≡◌, List, [], ◌∷◌, false, Option, none, some, length}
use mathlib.Core.Option
use libcsp_rust.Base.Int.{ℤ, pos, negsuc, ◌==ℤ◌}
use libcsp_rust.Error.{Result}
use libcsp_rust.Arch.Queues.{as_i32}
use libcsp_rust.Connection.Transaction.{transaction_result}

-- `csp_transaction_persistent`, on the request, its length and the length of the reply asked for (-1 for
-- a reply of any length): what it returns, and the bytes of the reply, which it copies to the buffer
-- without knowing the buffer's length. A positive number returned is the length of the reply; a reply
-- of another length than the one asked for is refused.
pub record Libcsp : Type 0 where
  pub csp_transaction : List ℕ → ℤ → ℤ → ℤ × List ℕ
  pub fails :
      (out : List ℕ) (out_len in_len : ℤ) (n : ℕ)
      → (in_len ==ℤ pos 0) ≡ false
      → (csp_transaction out out_len in_len).0 ≡ negsuc n
      → (csp_transaction out out_len in_len).1 ≡ []
  pub replies :
      (out : List ℕ) (out_len in_len : ℤ) (n : ℕ)
      → (in_len ==ℤ pos 0) ≡ false
      → (csp_transaction out out_len in_len).0 ≡ pos n
      → length (csp_transaction out out_len in_len).1 ≡ n
  pub asked :
      (out : List ℕ) (out_len : ℤ) (m n : ℕ)
      → (csp_transaction out out_len (pos (suc m))).0 ≡ pos (suc n)
      → n ≡ m

-- libcsp writes the reply byte by byte from the start of the buffer; `none` is a write at an address
-- where the buffer has ended.
unfoldable pub write_bytes : List ℕ → List ℕ → Option (List ℕ)
write_bytes [] buf = some buf
write_bytes (b ∷ reply) [] = none
write_bytes (b ∷ reply) (old ∷ buf) = Option.map (◌∷◌ b) (write_bytes reply buf)

unfoldable pub transacted : ℤ → ℤ × List ℕ → List ℕ → Option (Result ℕ × List ℕ)
unfolding write_bytes
transacted in_len (ret, reply) in_buf =
    Option.map (λ buf. (transaction_result ret in_len, buf)) (write_bytes reply in_buf)

module _ (libcsp : Libcsp) where
  open libcsp use {csp_transaction, fails, replies, asked}

  unfoldable pub transaction : List ℕ → List ℕ → ℤ → Option (Result ℕ × List ℕ)
  unfolding transacted
  transaction out_buf in_buf in_len =
      transacted in_len (csp_transaction out_buf (as_i32 (length out_buf)) in_len) in_buf

-- The number of bytes that a returned number stands for.
abbrev bytes_in : ℤ → ℕ
bytes_in (pos n) = n
bytes_in (negsuc n) = 0
