-- ===== src/Error/Text.antt =====
-- The texts of `CspError` (`Display` of src/error.rs). `show_i32` is how the standard library writes an i32.
use Prim.Native.String.{◌++◌ as ◌<>◌}
use libcsp_rust.Base.Texts.{String}
use libcsp_rust.Base.Int.{ℤ}
use libcsp_rust.Error.{
  CspError, no_memory, invalid_argument, timed_out, resource_in_use, not_supported, busy,
  already_in_progress, connection_reset, no_buffers, transmit_failed, driver_error, again,
  hmac_failed, crc32_failed, sfp_error, not_implemented, aborted, already_initialized, other,
}

unfoldable pub fmt : (ℤ → String) → CspError → String
fmt show_i32 no_memory = "not enough memory"
fmt show_i32 invalid_argument = "invalid argument"
fmt show_i32 timed_out = "operation timed out"
fmt show_i32 resource_in_use = "resource already in use"
fmt show_i32 not_supported = "operation not supported"
fmt show_i32 busy = "device or resource busy"
fmt show_i32 already_in_progress = "connection already in progress"
fmt show_i32 connection_reset = "connection reset"
fmt show_i32 no_buffers = "no buffer space available"
fmt show_i32 transmit_failed = "transmission failed"
fmt show_i32 driver_error = "driver layer error"
fmt show_i32 again = "resource temporarily unavailable"
fmt show_i32 hmac_failed = "HMAC verification failed"
fmt show_i32 crc32_failed = "CRC32 check failed"
fmt show_i32 sfp_error = "SFP protocol error"
fmt show_i32 not_implemented = "function not implemented"
fmt show_i32 aborted = "transfer aborted by caller"
fmt show_i32 already_initialized = "CSP is already initialized"
fmt show_i32 (other code) = "libcsp error code " <> show_i32 code
