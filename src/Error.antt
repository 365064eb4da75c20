-- ===== src/Error.antt =====
-- src/error.rs: the error codes of libcsp as an enumeration. The numbers of the `CSP_ERR_*` names
-- are those that the comments on the variants give.
pub mod Codes
pub mod Text
use libcsp_rust.Base.{ℕ, Bool, true, false, Option, none, some, if◌then◌else◌}
use libcsp_rust.Base.Int.{ℤ, pos, negsuc, ◌==ℤ◌}

pub data CspError : Type 0 where
  no_memory invalid_argument timed_out resource_in_use not_supported busy : CspError
  already_in_progress connection_reset no_buffers transmit_failed driver_error again : CspError
  hmac_failed crc32_failed sfp_error not_implemented aborted already_initialized : CspError
  other : ℤ → CspError

pub data Result {ℓ} (A : Type ℓ) : Type ℓ where
  ok : A → Result A
  err : CspError → Result A

-- `CSP_ERR_ABORTED`
abbrev pub csp_err_aborted : ℤ
csp_err_aborted = negsuc 199

unfoldable pub from_code : ℤ → CspError
from_code code =
    if code ==ℤ negsuc 0
    then no_memory
    else (if code ==ℤ negsuc 1
        then invalid_argument
        else (if code ==ℤ negsuc 2
            then timed_out
            else (if code ==ℤ negsuc 3
                then resource_in_use
                else (if code ==ℤ negsuc 4
                    then not_supported
                    else (if code ==ℤ negsuc 5
                        then busy
                        else (if code ==ℤ negsuc 6
                            then already_in_progress
                            else (if code ==ℤ negsuc 7
                                then connection_reset
                                else (if code ==ℤ negsuc 8
                                    then no_buffers
                                    else (if code ==ℤ negsuc 9
                                        then transmit_failed
                                        else (if code ==ℤ negsuc 10
                                            then driver_error
                                            else (if code ==ℤ negsuc 11
                                                then again
                                                else (if code ==ℤ negsuc 99
                                                    then hmac_failed
                                                    else (if code ==ℤ negsuc 101
                                                        then crc32_failed
                                                        else (if code ==ℤ negsuc 102
                                                            then sfp_error
                                                            else (if code ==ℤ negsuc 37
                                                            then not_implemented
                                                            else (if code ==ℤ csp_err_aborted
                                                            then aborted
                                                            else other code))))))))))))))))

unfoldable pub csp_result : ℤ → Result (Unit {0})
csp_result code = if code ==ℤ pos 0 then ok tt else err (from_code code)
