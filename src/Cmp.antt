-- ===== src/Cmp.antt =====
-- src/service.rs: the requests `peek` and `poke` of the management protocol. The exchange `csp_cmp` of
-- libcsp, the largest length and the size of the message's data array are parameters.
pub mod Poke
pub mod Ident
use libcsp_rust.Base.{
  ℕ, zero, suc, ◌+◌, ◌-◌, ◌%◌, ◌^◌, ◌≡◌, ◌≤◌, ◌<◌, List, [], ◌∷◌, ◌++◌, Bool, true, false, ltb,
  if◌then◌else◌, length, take, drop, set, replicate, length-replicate, length-append, take-append,
  arith, refl, ap, sym, ◌∙◌, append_assoc,
}
use libcsp_rust.Base.Int.{ℤ, pos, ◌==ℤ◌}
use libcsp_rust.Error.{CspError, invalid_argument, from_code, Result, ok, err}
use libcsp_rust.Packet.{Checked, value, panic}

-- The fields of `csp_cmp_message` that the two requests use, and the size handed over with it.
pub record Message : Type 0 where
  pub addr : ℕ
  pub len : ℕ
  pub data' : List ℕ
  pub size : ℕ

-- The loop over the bytes; an index past the array panics.
unfoldable pub fill_data : List ℕ → ℕ → List ℕ → Checked (List ℕ)
fill_data array i [] = value array
fill_data array i (b ∷ bytes) =
    let rest = fill_data (set array i b) (i + 1) bytes in
    if ltb i (length array) then rest else panic

unfoldable pub answered : ℤ → Result (Unit {0})
answered ret = if ret ==ℤ pos 0 then ok tt else err (from_code ret)

-- `max_len` is CSP_CMP_PEEK_MAX_LEN and CSP_CMP_POKE_MAX_LEN; `csp_cmp` gives the code and the data
-- of the reply.
module _ (max_len array_size : ℕ) (csp_cmp : Message → ℤ × List ℕ) where
  -- `len` is a u8. Slicing past the array would panic.
  unfoldable pub peek : ℕ → ℕ → Checked (Result (List ℕ))
  peek address len =
      if ltb max_len len
      then value (err invalid_argument)
      else (let (ret, reply) = csp_cmp (record {
        addr = address;
        len = len;
        data' = replicate array_size 0;
        size = 2 + 4 + 1 + len;
      }) in
          if ret ==ℤ pos 0
          then (if ltb (length reply) len then panic else value (ok (take len reply)))
          else value (err (from_code ret)))

  unfoldable pub send : ℕ → List ℕ → Checked (List ℕ) → Checked (Result (Unit {0}))
  unfolding answered
  send address bytes panic = panic
  send address bytes (value array) = value (
      answered
        (csp_cmp (record {
          addr = address;
          len = length bytes % 2 ^ 8;
          data' = array;
          size = 2 + 4 + 1 + length bytes;
        })).0)

  unfoldable pub poke : ℕ → List ℕ → Checked (Result (Unit {0}))
  unfolding send fill_data
  poke address bytes =
      if ltb max_len (length bytes % 2 ^ 32)
      then value (err invalid_argument)
      else send address bytes (fill_data (replicate array_size 0) 0 bytes)
