-- ===== src/Build/Config.antt =====
-- `csp/autoconfig.h`, the sizes exported to the Rust code, and the variables that cause a new build.
-- `parse_u32` is the standard library's `str::parse::<u32>`.
use libcsp_rust.Base.{ℕ, List, [], ◌∷◌, ◌++◌, Bool, true, false, Option, none, some, if◌then◌else◌}
use libcsp_rust.Base.Texts.{String, same_text, is_some, unwrap_or}
use libcsp_rust.Build.{Env, Value, num, str, uses_external_arch}

abbrev pub Define : Type 0
Define = String × Value

-- "1" if the variable is set, else "0".
unfoldable pub feat : Env → String → Value
feat env name = if is_some (env name) then num 1 else num 0

-- "0" if the external arch is used, else "1".
unfoldable pub hosted : Env → Value
hosted env = if uses_external_arch env then num 0 else num 1

unfoldable pub is_big_endian : Env → Bool
is_big_endian env = same_text (unwrap_or (env "CARGO_CFG_TARGET_ENDIAN") "little") "big"

unfoldable pub endian_define : Bool → List Define
endian_define true = ("CSP_BIG_ENDIAN", num 1) ∷ ("CSP_LITTLE_ENDIAN", num 0) ∷ []
endian_define false = ("CSP_LITTLE_ENDIAN", num 1) ∷ ("CSP_BIG_ENDIAN", num 0) ∷ []

-- `emit_rerun_triggers`: the names of the variables.
unfoldable pub rerun_variables : List String
rerun_variables =
    "LIBCSP_BUFFER_SIZE" ∷ "LIBCSP_BUFFER_COUNT" ∷ "LIBCSP_CONN_MAX" ∷ "LIBCSP_CONN_RXQUEUE_LEN"
    ∷ "LIBCSP_QFIFO_LEN" ∷ "LIBCSP_PORT_MAX_BIND" ∷ "LIBCSP_RTABLE_SIZE" ∷ "LIBCSP_MAX_INTERFACES"
    ∷ "LIBCSP_RDP_MAX_WINDOW" ∷ "LIBCSP_PACKET_PADDING_BYTES" ∷ []

module _ (parse_u32 : String → Option ℕ) where
  parsed : Option String → Option ℕ
  parsed none = none
  parsed (some v) = parse_u32 v

  unfoldable pub cfg_u32 : Env → String → ℕ → ℕ
  unfolding parsed
  cfg_u32 env name default = unwrap_or (parsed (env name)) default

  -- The feature flags, the fixed ones and the sizes.
  unfoldable pub settings : Env → List Define
  unfolding feat hosted cfg_u32
  settings env =
      ("CSP_USE_RDP", feat env "CARGO_FEATURE_RDP")
      ∷ ("CSP_USE_RDP_FAST_CLOSE", feat env "CARGO_FEATURE_RDP_FAST_CLOSE")
      ∷ ("CSP_USE_HMAC", feat env "CARGO_FEATURE_HMAC")
      ∷ ("CSP_USE_PROMISC", feat env "CARGO_FEATURE_PROMISC")
      ∷ ("CSP_USE_RTABLE", num 1)
      ∷ ("CSP_ENABLE_CSP_PRINT", hosted env)
      ∷ ("CSP_HAVE_STDIO", hosted env)
      ∷ ("CSP_PRINT_STDIO", hosted env)
      ∷ ("CSP_FIXUP_V1_ZMQ_LITTLE_ENDIAN", feat env "CARGO_FEATURE_ZMQ_V1_FIXUP")
      ∷ ("CSP_BUFFER_ZERO_CLEAR", feat env "CARGO_FEATURE_BUFFER_ZERO_CLEAR")
      ∷ ("CSP_USE_DEDUP", feat env "CARGO_FEATURE_DEDUP")
      ∷ ("CSP_DEBUG", feat env "CARGO_FEATURE_DEBUG")
      ∷ ("CSP_BUFFER_SIZE", num (cfg_u32 env "LIBCSP_BUFFER_SIZE" 256))
      ∷ ("CSP_BUFFER_COUNT", num (cfg_u32 env "LIBCSP_BUFFER_COUNT" 10))
      ∷ ("CSP_CONN_MAX", num (cfg_u32 env "LIBCSP_CONN_MAX" 10))
      ∷ ("CSP_CONN_RXQUEUE_LEN", num (cfg_u32 env "LIBCSP_CONN_RXQUEUE_LEN" 10))
      ∷ ("CSP_QFIFO_LEN", num (cfg_u32 env "LIBCSP_QFIFO_LEN" 25))
      ∷ ("CSP_PORT_MAX_BIND", num (cfg_u32 env "LIBCSP_PORT_MAX_BIND" 48))
      ∷ ("CSP_RTABLE_SIZE", num (cfg_u32 env "LIBCSP_RTABLE_SIZE" 10))
      ∷ ("CSP_MAX_INTERFACES", num (cfg_u32 env "LIBCSP_MAX_INTERFACES" 8))
      ∷ ("CSP_RDP_MAX_WINDOW", num (cfg_u32 env "LIBCSP_RDP_MAX_WINDOW" 20))
      ∷ ("CSP_PACKET_PADDING_BYTES", num (cfg_u32 env "LIBCSP_PACKET_PADDING_BYTES" 8))
      ∷ ("LIBCSP_VERSION", str "2.1")
      ∷ ("GIT_REV", str "unknown")
      ∷ []

  -- `generate_autoconfig`: the macros of the header in their order.
  unfoldable pub autoconfig : Env → List Define
  unfolding settings is_big_endian endian_define
  autoconfig env = endian_define (is_big_endian env) ++ settings env

  -- `cargo:rustc-env`
  unfoldable pub rustc_env : Env → List (String × ℕ)
  unfolding cfg_u32
  rustc_env env =
      ("CSP_BUFFER_SIZE", cfg_u32 env "LIBCSP_BUFFER_SIZE" 256)
      ∷ ("CSP_BUFFER_COUNT", cfg_u32 env "LIBCSP_BUFFER_COUNT" 10)
      ∷ ("CSP_CONN_MAX", cfg_u32 env "LIBCSP_CONN_MAX" 10)
      ∷ ("CSP_CONN_RXQUEUE_LEN", cfg_u32 env "LIBCSP_CONN_RXQUEUE_LEN" 10)
      ∷ ("CSP_QFIFO_LEN", cfg_u32 env "LIBCSP_QFIFO_LEN" 25)
      ∷ ("CSP_PORT_MAX_BIND", cfg_u32 env "LIBCSP_PORT_MAX_BIND" 48)
      ∷ ("CSP_RTABLE_SIZE", cfg_u32 env "LIBCSP_RTABLE_SIZE" 10)
      ∷ ("CSP_MAX_INTERFACES", cfg_u32 env "LIBCSP_MAX_INTERFACES" 8)
      ∷ ("CSP_RDP_MAX_WINDOW", cfg_u32 env "LIBCSP_RDP_MAX_WINDOW" 20)
      ∷ ("CSP_PACKET_PADDING_BYTES", cfg_u32 env "LIBCSP_PACKET_PADDING_BYTES" 8)
      ∷ []
