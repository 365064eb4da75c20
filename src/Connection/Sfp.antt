-- ===== src/Connection/Sfp.antt =====
-- src/connection.rs: the callbacks that `sfp_send_with_progress` and `sfp_recv_with_progress` hand to
-- the C transfer, and the results of both. The C side is what calls them, so a transfer is a list of
-- calls. A progress closure is a function on a state of its own.
pub mod Calls
pub mod Send
pub mod Receive
pub mod RoundTrip
pub mod Plain
use libcsp_rust.Base.{
  ℕ, ◌+◌, ◌%◌, ◌^◌, ◌-◌, ◌≡◌, List, [], ◌∷◌, Bool, true, false, ◌&&◌, Option, none, some, ltb, leb,
  if◌then◌else◌, length, take, min, read_at, write_at, replicate,
}
use libcsp_rust.Base.Int.{ℤ, pos, negsuc, ◌==ℤ◌}
use libcsp_rust.Error.{CspError, from_code, Result, ok, err}

abbrev pub csp_err_none : ℤ
csp_err_none = pos 0

abbrev pub csp_err_inval : ℤ
csp_err_inval = negsuc 1

abbrev pub csp_err_aborted : ℤ
csp_err_aborted = negsuc 199

-- What the caller of a transfer gets, from what the C call returns.
unfoldable pub sfp_result {ℓ} : {A : Type ℓ} → ℤ → A → Result A
sfp_result ret x = if ret ==ℤ csp_err_none then ok x else err (from_code ret)

-- `if ctx.buf.is_empty() && totalsz > 0 { resize }`
unfoldable pub resized : List ℕ → ℕ → List ℕ
resized [] totalsz = replicate totalsz 0
resized (x ∷ buf) totalsz = x ∷ buf

module _ {S : Type 0} where
  -- `read_cb` on `data`: the return code, the bytes copied out and the closure's state; `none` is a
  -- read beyond the slice.
  unfoldable pub read_cb : (S → ℕ → ℕ → Bool × S) → List ℕ → ℕ → ℕ → S → Option (ℤ × List ℕ × S)
  read_cb progress data' size offset s =
      let end' = min (offset + size) (2 ^ 32 - 1) in
      let len = length data' % 2 ^ 32 in
      if ltb len end'
      then some (csp_err_inval, [], s)
      else (if ltb (length data') (offset + size)
          then none
          else (let (go, s') = progress s end' len in
              some (if go then csp_err_none else csp_err_aborted, read_at data' offset size, s')))

  -- `write_cb` on the buffer so far: the return code, the buffer and the closure's state. `usize_max`
  -- is the bound of `checked_add`.
  unfoldable pub write_cb :
      (S → ℕ → ℕ → List ℕ → Bool × S) → ℕ → List ℕ → ℕ → ℕ → List ℕ → S → ℤ × List ℕ × S
  write_cb progress usize_max buffer offset totalsz buf s =
      let sized = resized buf totalsz in
      let end' = offset + length buffer in
      if ltb usize_max end'
      then (csp_err_inval, sized, s)
      else (if ltb (length sized) end'
          then (csp_err_inval, sized, s)
          else (let written = write_at sized offset buffer in
              let (go, s') = progress s (end' % 2 ^ 32) totalsz (take end' written) in
              (if go then csp_err_none else csp_err_aborted, written, s')))
