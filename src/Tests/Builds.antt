-- ===== src/Tests/Builds.antt =====
-- The build script at a concrete environment: Linux, with RDP and a buffer size of 512.
use libcsp_rust.Base.{
  ℕ, List, Bool, true, not, ◌&&◌, ◌||◌, [], Option, none, some, ◌≡◌, All, if◌then◌else◌,
}
use libcsp_rust.Base.Texts.{String, same_text}
use libcsp_rust.Build.{Env, uses_external_arch}
use libcsp_rust.Build.Steps.{Step, compile, main}
use libcsp_rust.Build.Steps.Order.{in_order, main_lem}
use libcsp_rust.Build.Steps.Failures.{has_returned, steps_of, always, until_failure, all_work}
use libcsp_rust.Base.Texts.{is_some}
use libcsp_rust.Build.Config.{autoconfig}
use libcsp_rust.Build.Compile.{defines}
use libcsp_rust.Build.Agree.{AgreesWith, defines-autoconfig}

abbrev parse : String → Option ℕ
parse v = if same_text v "512" then some 512 else none

abbrev linux : Env
linux name =
    if same_text name "CARGO_CFG_TARGET_OS"
    then some "linux"
    else (if same_text name "TARGET"
        then some "x86_64-unknown-linux-gnu"
        else (if same_text name "CARGO_FEATURE_RDP"
            then some "1"
            else (if same_text name "LIBCSP_BUFFER_SIZE" then some "512" else none)))

defines-autoconfig_example : All (AgreesWith (autoconfig parse linux)) (defines linux)
defines-autoconfig_example = defines-autoconfig parse linux

-- A program that writes nothing, and a file system with all that is asked for
abbrev silent : String → List String → Option String
silent program args = none

abbrev complete : String → Bool
complete path = true

abbrev to_out : Env
to_out name = if same_text name "OUT_DIR" then some "/target/out" else linux name

-- The compiler fails on libcsp.
abbrev without_csp : Step → Bool
without_csp (compile name includes macros flags files) = not (same_text name "csp")
without_csp s = true

main_example :
    let done = main without_csp silent complete parse to_out in
    let planned = steps_of (main always silent complete parse to_out) in
    (steps_of done ≡ until_failure without_csp planned)
    × (has_returned done ≡ (
        (is_some (to_out "OUT_DIR")
          && (not (uses_external_arch to_out) || complete "libcsp-sys/mini-scanf/c_scan.c"))
        && all_work without_csp planned))
    × (in_order (uses_external_arch to_out) [] (steps_of done) ≡ true)
main_example = main_lem silent complete without_csp parse to_out
