-- ===== src/Error/Codes.antt =====
-- `from_code` and `csp_result` against the codes documented on the variants.
use libcsp_rust.Base.{
  ◌≡◌, ◌↔◌, ◌⊎◌, inl, inr, refl, arith, false, Option, none, some, ap, sym, ◌∙◌, Bool-cases,
}
use libcsp_rust.Base.Int.{ℤ, pos, negsuc, ◌==ℤ◌, ==ℤ_iff}
use libcsp_rust.Error.{
  CspError, no_memory, invalid_argument, timed_out, resource_in_use, not_supported, busy,
  already_in_progress, connection_reset, no_buffers, transmit_failed, driver_error, again,
  hmac_failed, crc32_failed, sfp_error, not_implemented, aborted, already_initialized, other, ok,
  err, from_code, csp_result, csp_err_aborted,
}

-- The code that the comment on a variant gives; `already_initialized` has none.
unfoldable pub documented_code : CspError → Option ℤ
documented_code no_memory = some (negsuc 0)
documented_code invalid_argument = some (negsuc 1)
documented_code timed_out = some (negsuc 2)
documented_code resource_in_use = some (negsuc 3)
documented_code not_supported = some (negsuc 4)
documented_code busy = some (negsuc 5)
documented_code already_in_progress = some (negsuc 6)
documented_code connection_reset = some (negsuc 7)
documented_code no_buffers = some (negsuc 8)
documented_code transmit_failed = some (negsuc 9)
documented_code driver_error = some (negsuc 10)
documented_code again = some (negsuc 11)
documented_code hmac_failed = some (negsuc 99)
documented_code crc32_failed = some (negsuc 101)
documented_code sfp_error = some (negsuc 102)
documented_code not_implemented = some (negsuc 37)
documented_code aborted = some csp_err_aborted
documented_code already_initialized = none
documented_code (other code) = some code

-- No code is lost: the documented code of what `from_code` returns is the code it was given.
pub documented_code-from_code : (code : ℤ) → documented_code (from_code code) ≡ some code
unfolding documented_code from_code
documented_code-from_code (pos n) = refl
documented_code-from_code (negsuc n) = ground arith

pub from_code-injective : (c d : ℤ) → from_code c ≡ from_code d → c ≡ d
from_code-injective c d e =
    let p =
      sym (documented_code-from_code c) ∙ ap documented_code e ∙ documented_code-from_code d in
    cc

-- A variant that stands for a documented code, not the catch-all.
abbrev pub IsNamed : CspError → Type 0
IsNamed (other code) = ⊥
IsNamed already_initialized = ⊥
IsNamed _ = Unit

from_code-documented_code :
    (e : CspError) (code : ℤ) → IsNamed e → documented_code e ≡ some code → from_code code ≡ e
unfolding documented_code from_code
from_code-documented_code no_memory code i h = ground arith
from_code-documented_code (other c) code i h = elim i [ ]
from_code-documented_code already_initialized code i h = elim i [ ]
from_code-documented_code _ code i h = ground arith

csp_result-zero : csp_result (pos 0) ≡ ok tt
unfolding csp_result
csp_result-zero = refl

csp_result_ne : (code : ℤ) → (code ==ℤ pos 0) ≡ false → csp_result code ≡ err (from_code code)
unfolding csp_result
csp_result_ne code h = rw h refl

-- `csp_result` is `Ok` exactly for 0, and for any other code it is an error that documents that code.
pub csp_result_lem :
    (code : ℤ)
    → ((csp_result code ≡ ok tt) ↔ (code ≡ pos 0))
      × ((code ≡ pos 0)
          ⊎ ((e : CspError) × (csp_result code ≡ err e) × (documented_code e ≡ some code)))
csp_result_lem code = elim (Bool-cases (code ==ℤ pos 0)) [
  | inl is ↦ let z = (==ℤ_iff code (pos 0)).0 is in ((λ h. z, λ h. rw z csp_result-zero), inl z)
  | inr isnt ↦
      let n = csp_result_ne code isnt in
      (
        (λ h. cc (n), λ h. cc ((==ℤ_iff code (pos 0)).1 h)),
        inr (from_code code, n, documented_code-from_code code),
      )
]
