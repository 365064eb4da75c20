-- ===== src/Build/Compile.antt =====
-- `compile_libcsp`: the macros, flags and sources of the C library. A source is its path below
-- libcsp/src, but for the generated csp_relax_default.c.
use libcsp_rust.Base.{List, [], ◌∷◌, ◌++◌, Bool, true, not, ◌&&◌, ◌||◌, if◌then◌else◌}
use libcsp_rust.Base.Texts.{String, same_text, is_some, unwrap_or, when_texts}
use libcsp_rust.Build.{Env, num, target_os, uses_external_arch}
use libcsp_rust.Build.Config.{Define, feat, hosted}

unfoldable pub is_ropi_rwpi : Env → Bool
is_ropi_rwpi env =
    is_some (env "CARGO_FEATURE_ROPI_RWPI")
    && same_text (unwrap_or (env "CARGO_CFG_TARGET_ARCH") "") "arm"

-- The macros given to the compiler. CSP_POSIX is defined on every hosted system.
unfoldable pub defines : Env → List Define
unfolding feat hosted
defines env =
    ("CSP_USE_RDP", feat env "CARGO_FEATURE_RDP")
    ∷ ("CSP_USE_RDP_FAST_CLOSE", feat env "CARGO_FEATURE_RDP_FAST_CLOSE")
    ∷ ("CSP_USE_HMAC", feat env "CARGO_FEATURE_HMAC")
    ∷ ("CSP_USE_PROMISC", feat env "CARGO_FEATURE_PROMISC")
    ∷ ("CSP_USE_DEDUP", feat env "CARGO_FEATURE_DEDUP")
    ∷ ("CSP_DEBUG", feat env "CARGO_FEATURE_DEBUG")
    ∷ ("CSP_FIXUP_V1_ZMQ_LITTLE_ENDIAN", feat env "CARGO_FEATURE_ZMQ_V1_FIXUP")
    ∷ ("CSP_BUFFER_ZERO_CLEAR", feat env "CARGO_FEATURE_BUFFER_ZERO_CLEAR")
    ∷ ("CSP_ENABLE_CSP_PRINT", hosted env)
    ∷ ("CSP_HAVE_STDIO", hosted env)
    ∷ ("CSP_PRINT_STDIO", hosted env)
    ∷ ("CSP_USE_RTABLE", num 1)
    ∷ (if uses_external_arch env then [] else ("CSP_POSIX", num 1) ∷ [])

unfoldable pub flags : Env → List String
unfolding is_ropi_rwpi
flags env =
    ("-std=gnu99" ∷ "-Os" ∷ "-Wall" ∷ "-Wextra" ∷ "-Wshadow" ∷ "-Wcast-align" ∷ "-Wwrite-strings"
      ∷ "-Wno-unused-parameter" ∷ "-Wno-address-of-packed-member" ∷ [])
    ++ when_texts (uses_external_arch env) ("-include" ∷ "csp/csp_external_arch.h" ∷ [])
    ++ when_texts (is_ropi_rwpi env)
        ("-msingle-pic-base" ∷ "-mpic-register=r9" ∷ "-mno-pic-data-is-text-relative" ∷ [])

abbrev pub core : List String
core =
    "csp_buffer.c" ∷ "csp_bridge.c" ∷ "csp_conn.c" ∷ "csp_crc32.c" ∷ "csp_debug.c" ∷ "csp_dedup.c"
    ∷ "csp_id.c" ∷ "csp_iflist.c" ∷ "csp_init.c" ∷ "csp_io.c" ∷ "csp_port.c" ∷ "csp_promisc.c"
    ∷ "csp_qfifo.c" ∷ "csp_route.c" ∷ "csp_rtable_cidr.c" ∷ "csp_service_handler.c"
    ∷ "csp_services.c" ∷ "csp_sfp.c" ∷ "cmp/csp_cmp_clock.c" ∷ "cmp/csp_cmp_dispatch.c"
    ∷ "cmp/csp_cmp_ident.c" ∷ "cmp/csp_cmp_if_stats.c" ∷ "cmp/csp_cmp_mem.c"
    ∷ "cmp/csp_cmp_peek_poke.c" ∷ "cmp/csp_cmp_route.c" ∷ []

abbrev pub stdio_sources : List String
stdio_sources = "csp_hex_dump.c" ∷ "csp_rtable_stdio.c" ∷ []

abbrev pub rdp_sources : List String
rdp_sources = "csp_rdp.c" ∷ "csp_rdp_queue.c" ∷ []

abbrev pub hmac_sources : List String
hmac_sources = "crypto/csp_hmac.c" ∷ "crypto/csp_sha1.c" ∷ []

abbrev pub interfaces : List String
interfaces =
    "interfaces/csp_if_can.c" ∷ "interfaces/csp_if_can_pbuf.c" ∷ "interfaces/csp_if_i2c.c"
    ∷ "interfaces/csp_if_kiss.c" ∷ "interfaces/csp_if_lo.c" ∷ []

abbrev pub socket_interfaces : List String
socket_interfaces = "interfaces/csp_if_udp.c" ∷ "interfaces/csp_if_tun.c" ∷ []

abbrev pub zmq_interfaces : List String
zmq_interfaces = "interfaces/csp_if_zmqhub.c" ∷ []

-- Both arms of the match on the system compile these.
abbrev pub posix_sources : List String
posix_sources =
    "arch/posix/csp_clock.c" ∷ "arch/posix/csp_queue.c" ∷ "arch/posix/csp_semaphore.c"
    ∷ "arch/posix/csp_system.c" ∷ "arch/posix/csp_time.c" ∷ "arch/posix/pthread_queue.c" ∷ []

abbrev pub relax_source : List String
relax_source = "csp_relax_default.c" ∷ []

abbrev pub socketcan_sources : List String
socketcan_sources = "drivers/can/can_socketcan.c" ∷ []

abbrev pub usart_sources : List String
usart_sources = "drivers/usart/usart_kiss.c" ∷ "drivers/usart/usart_linux.c" ∷ []

-- The decisions that choose among the sources.
pub record Choices : Type 0 where
  pub external : Bool
  pub rdp : Bool
  pub hmac : Bool
  pub zmq : Bool
  pub socketcan : Bool
  pub usart : Bool

unfoldable pub choices : Env → Choices
choices env = record {
  external = uses_external_arch env;
  rdp = is_some (env "CARGO_FEATURE_RDP");
  hmac = is_some (env "CARGO_FEATURE_HMAC");
  zmq = is_some (env "CARGO_FEATURE_ZMQ");
  socketcan = is_some (env "CARGO_FEATURE_SOCKETCAN");
  usart = is_some (env "CARGO_FEATURE_USART_LINUX") && same_text (target_os env) "linux";
}

-- The `file` calls, block by block, each with the condition on it.
unfoldable pub blocks : Choices → List (Bool × List String)
blocks c =
    (true, core)
    ∷ (not c.external, stdio_sources)
    ∷ (c.rdp, rdp_sources)
    ∷ (c.hmac, hmac_sources)
    ∷ (true, interfaces)
    ∷ (not c.external, socket_interfaces)
    ∷ (c.zmq, zmq_interfaces)
    ∷ (not c.external, posix_sources)
    ∷ (not c.external, relax_source)
    ∷ (c.socketcan, socketcan_sources)
    ∷ (c.usart, usart_sources)
    ∷ []

abbrev pub chosen : List (Bool × List String) → List String
chosen [] = []
chosen ((b, files) ∷ rest) = when_texts b files ++ chosen rest

-- The files of the library, in the order of the `file` calls.
unfoldable pub sources : Env → List String
unfolding blocks choices
sources env = chosen (blocks (choices env))

-- The body of the generated csp_relax_default.c.
unfoldable pub relax_body : Env → String
relax_body env =
    if same_text (target_os env) "linux" || same_text (target_os env) "macos"
    then "#include <sched.h>\nvoid csp_relax(void) { sched_yield(); }\n"
    else "void csp_relax(void) { }\n"

-- The libraries that `main` links.
unfoldable pub link_libs : Env → List String
link_libs env =
    (if same_text (target_os env) "linux"
      then "pthread" ∷ "rt" ∷ []
      else (if same_text (target_os env) "macos" then "pthread" ∷ [] else []))
    ++ when_texts (is_some (env "CARGO_FEATURE_SOCKETCAN")) ("socketcan" ∷ [])
    ++ when_texts (is_some (env "CARGO_FEATURE_ZMQ")) ("zmq" ∷ [])
