-- ===== src/Route.antt =====
-- src/route.rs: the routing table of libcsp is not ours, so what its calls return or write is a
-- parameter. Texts are lists of bytes.
pub mod Iterate
pub mod Text
pub mod Table
use libcsp_rust.Base.{
  ℕ, suc, ◌+◌, ◌-◌, ◌^◌, ◌≤◌, List, [], ◌∷◌, Bool, true, false, Option, none, some, ◌==◌,
  if◌then◌else◌, take, length, replicate,
}
use libcsp_rust.Base.Int.{ℤ, pos, negsuc}
use libcsp_rust.CText.{cstring_new, until_nul}
use libcsp_rust.Error.{
  CspError, invalid_argument, not_implemented, from_code, Result, ok, err, csp_result,
}

-- `CSP_NO_VIA_ADDRESS`
abbrev pub no_via : ℕ
no_via = 2 ^ 16 - 1

-- `csp_route_t`; `iface` stands for the pointer.
pub record RouteEntry : Type 0 where
  pub address : ℕ
  pub netmask : ℕ
  pub via : ℕ
  pub iface : ℕ

-- `csp_rtable_set`, as the code it returns
module _ (rtable_set : ℕ → ℕ → ℕ → ℕ → ℤ) where
  unfoldable pub set_raw : ℕ → ℕ → ℕ → ℕ → Result (Unit {0})
  set_raw dest_address mask iface via = csp_result (rtable_set dest_address mask iface via)

  unfoldable pub set_default : ℕ → Result (Unit {0})
  unfolding set_raw
  set_default iface = set_raw 0 0 iface no_via

-- `if ret >= 0`
unfoldable pub counted : ℤ → Result ℕ
counted (pos n) = ok n
counted (negsuc n) = err (from_code (negsuc n))

-- With `csp_rtable_load` or `csp_rtable_check` as `run`.
unfoldable pub counted_text : (List ℕ → ℤ) → Option (List ℕ) → Result ℕ
unfolding counted
counted_text run none = err invalid_argument
counted_text run (some cstr) = counted (run cstr)

module _ (external_arch : Bool) where
  unfoldable pub load : (List ℕ → ℤ) → List ℕ → Result ℕ
  unfolding counted_text
  load rtable_load table =
      if external_arch then err not_implemented else counted_text rtable_load (cstring_new table)

  unfoldable pub check : (List ℕ → ℤ) → List ℕ → Result ℕ
  unfolding counted_text
  check rtable_check table =
      if external_arch then err not_implemented else counted_text rtable_check (cstring_new table)

-- `String::from_utf8`, with the standard library's test on the bytes
unfoldable pub from_utf8 : (List ℕ → Bool) → List ℕ → Result (List ℕ)
from_utf8 is_utf8 buf = if is_utf8 buf then ok buf else err invalid_argument

unfoldable pub saved : (List ℕ → Bool) → Result (Unit {0}) → List ℕ → Result (List ℕ)
unfolding from_utf8
saved is_utf8 (err e) buf = err e
saved is_utf8 (ok u) buf = from_utf8 is_utf8 (until_nul buf)

-- `csp_rtable_save` gives its code and the buffer as it leaves it.
unfoldable pub save : Bool → (List ℕ → Bool) → (List ℕ → ℤ × List ℕ) → ℕ → Result (List ℕ)
unfolding saved
save external_arch is_utf8 rtable_save buf_size =
    if external_arch
    then err not_implemented
    else (let (ret, buf) = rtable_save (replicate buf_size 0) in saved is_utf8 (csp_result ret) buf)

-- `csp_rtable_find_route` gives an entry or null.
unfoldable pub find : (ℕ → Option RouteEntry) → ℕ → Option RouteEntry
find find_route dest_address = find_route dest_address
