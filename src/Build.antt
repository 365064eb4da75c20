-- ===== src/Build.antt =====
-- build.rs: what the build script generates, compiles and passes on, as functions of the environment.
-- A variable of the environment is `none` where `env::var` gives an error.
pub mod Config
pub mod Compile
pub mod Agree
pub mod Bindings
pub mod Sources
pub mod Steps
use libcsp_rust.Base.{Bool, true, false, ◌||◌, Option, none, some, if◌then◌else◌, ℕ}
use libcsp_rust.Base.Texts.{String, same_text, is_some, unwrap_or, contains}

abbrev pub Env : Type 0
Env = String → Option String

-- A value of a C macro.
pub data Value : Type 0 where
  num : ℕ → Value
  str : String → Value

unfoldable pub target_os : Env → String
target_os env = unwrap_or (env "CARGO_CFG_TARGET_OS") ""

-- `is_ok_and` on TARGET.
abbrev pub target_is_bare : Option String → Bool
target_is_bare none = false
target_is_bare (some t) = contains t "thumb" || contains t "arm-none"

unfoldable pub is_embedded_target : Env → Bool
unfolding target_os
is_embedded_target env =
    (same_text (target_os env) "none"
      || same_text (target_os env) "unknown"
      || same_text (target_os env) "")
    || target_is_bare (env "TARGET")

unfoldable pub uses_external_arch : Env → Bool
unfolding is_embedded_target
uses_external_arch env = is_some (env "CARGO_FEATURE_EXTERNAL_ARCH") || is_embedded_target env
