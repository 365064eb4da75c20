-- ===== src/Build/Steps.antt =====
-- `main` of build.rs: what the build script does, in its order, and where it stops. Whether an action
-- succeeds is a parameter. The generated files are paths below OUT_DIR; what cc and bindgen read is
-- theirs. Paths are texts, so the tests that a path is UTF-8 are left out.
pub mod Failures
pub mod Order
use libcsp_rust.Base.{
  ℕ, List, [], ◌∷◌, ◌++◌, map, Bool, true, false, not, ◌&&◌, ◌||◌, Option, none, some,
  if◌then◌else◌, ◌≡◌, refl, arith, ap, ◌∙◌, inl, inr, Bool-cases, Option-cases,
}
use Prim.Native.String.{◌++◌ as ◌<>◌}
use libcsp_rust.Base.Texts.{String, same_text, is_some, when_texts, mem_text}
use libcsp_rust.Build.{num, Env, is_embedded_target, uses_external_arch}
use libcsp_rust.Build.Config.{Define, rerun_variables, autoconfig, rustc_env}
use libcsp_rust.Build.Compile.{
  defines, flags, sources, blocks, choices, Choices, relax_body, link_libs, is_ropi_rwpi,
}
use libcsp_rust.Build.Sources.{mem-chosen, wanted}
use libcsp_rust.Build.Bindings.{clang_args, headers}

-- One thing that the script does: a file written, with the macros of a header or its lines, a library
-- compiled (its include paths, macros, flags and sources), the bindings generated, and then written, or a directive
-- printed for cargo.
pub data Step : Type 0 where
  create_dir : String → Step
  write_macros : String → List Define → Step
  write : String → List String → Step
  compile : String → List String → List Define → List String → List String → Step
  bind : List String → List String → Step
  write_bindings : String → Step
  rerun_if_changed : String → Step
  rerun_if_env_changed : String → Step
  export_env : String × ℕ → Step
  link_lib : String → Step

-- How a part of the script ends: it returns after its steps, or after some of them it panics, or
-- cc ends the process.
pub data Ended : Type 0 where
  returned : List Step → Ended
  panicked : List Step → Ended

infixr 4 ◌then_run◌
unfoldable pub ◌then_run◌ : Ended → Ended → Ended
(panicked s) then_run next = panicked s
(returned s) then_run (panicked t) = panicked (s ++ t)
(returned s) then_run (returned t) = returned (s ++ t)

-- `unwrap`
unfoldable pub unwrap : Option String → (String → Ended) → Ended
unwrap none rest = panicked []
unwrap (some t) rest = rest t

-- One action. The script expects that it succeeds.
unfoldable pub act : (Step → Bool) → Step → Ended
act works s = if works s then returned (s ∷ []) else panicked []

unfoldable pub acts : (Step → Bool) → List Step → Ended
unfolding act ◌then_run◌
acts works [] = returned []
acts works (s ∷ steps) = act works s then_run acts works steps

abbrev pub when_steps : Bool → List Step → List Step
when_steps true steps = steps
when_steps false steps = []

unfoldable pub emit_rerun_triggers : List Step
unfolding rerun_variables
emit_rerun_triggers =
    (rerun_if_changed "build.rs"
      ∷ rerun_if_changed "libcsp/include"
      ∷ rerun_if_changed "libcsp/src"
      ∷ [])
    ++ map rerun_if_env_changed rerun_variables

-- Without its empty lines and comments.
unfoldable pub external_arch_header : List String
external_arch_header =
    "#ifndef CSP_EXTERNAL_ARCH_H" ∷ "#define CSP_EXTERNAL_ARCH_H" ∷ "#include <stdint.h>"
    ∷ "#include <stddef.h>" ∷ "typedef void * csp_bin_sem_t;" ∷ "uint32_t csp_get_ms(void);"
    ∷ "uint32_t csp_get_s(void);" ∷ "uint32_t csp_get_ms_isr(void);"
    ∷ "uint32_t csp_get_s_isr(void);" ∷ "uint32_t csp_get_uptime_s(void);"
    ∷ "void     csp_sleep_ms(uint32_t ms);"
    ∷ "int csp_thread_create(void (*f)(void *), const char * name, unsigned int stack, void * arg, unsigned int prio, void ** handle);"
    ∷ "#endif" ∷ []

-- `works` tells whether an action succeeds: a directory made, a file written, a library compiled, the
-- bindings generated or written, a line printed.
module _ (works : Step → Bool) where
  unfoldable pub generate_external_arch_headers : Ended
  generate_external_arch_headers =
      acts works (write "include/csp/csp_external_arch.h" external_arch_header ∷ [])

  unfoldable pub generate_autoconfig : (String → Option ℕ) → Env → Ended
  unfolding rustc_env
  generate_autoconfig parse_u32 env = acts works (
      map export_env (rustc_env parse_u32 env)
      ++ (write_macros "include/csp/autoconfig.h" (autoconfig parse_u32 env) ∷ []))

abbrev pub mini_scanf_steps : List Step
mini_scanf_steps =
    compile "mini_scanf" ("libcsp-sys/mini-scanf" ∷ []) (("C_SSCANF", num 1) ∷ [])
      ("-std=c99" ∷ "-Os" ∷ "-Wall" ∷ [])
      ("libcsp-sys/mini-scanf/c_scan.c" ∷ "libcsp-sys/sscanf_wrapper.c" ∷ [])
    ∷ rerun_if_changed "libcsp-sys/mini-scanf/c_scan.c"
    ∷ rerun_if_changed "libcsp-sys/mini-scanf/c_scan.h"
    ∷ rerun_if_changed "libcsp-sys/sscanf_wrapper.c"
    ∷ []

module _ (works : Step → Bool) (output : String → List String → Option String)
    (exists : String → Bool) where
  -- It panics where the submodule is missing. A macro without a value is 1.
  unfoldable pub compile_mini_scanf : Ended
  compile_mini_scanf =
      if exists "libcsp-sys/mini-scanf/c_scan.c" then acts works mini_scanf_steps else panicked []

  unfoldable pub compile_libcsp : String → Env → Ended
  unfolding compile_mini_scanf
  compile_libcsp out env =
      acts works (
        when_steps (is_embedded_target env && not (exists (out <> "/include/endian.h")))
          (write "include/endian.h" ("#pragma once" ∷ "#include <sys/endian.h>" ∷ []) ∷ []))
      then_run (if uses_external_arch env then compile_mini_scanf else returned [])
      then_run acts works (
          when_steps (not (uses_external_arch env))
            (write "include/csp_relax_default.c" (relax_body env ∷ []) ∷ [])
          ++ (compile "csp"
                ("libcsp/include"
                  ∷ "libcsp/src"
                  ∷ "libcsp/src/interfaces"
                  ∷ (out <> "/include")
                  ∷ [])
                (defines env) (flags env) (sources env)
              ∷ []))

  unfoldable pub generate_bindings : String → Env → Ended
  generate_bindings out env = acts works (
      bind (clang_args output exists "libcsp/include" (out <> "/include") env) (headers env)
      ∷ write_bindings "bindings.rs"
      ∷ [])

  -- After OUT_DIR is known.
  unfoldable pub run : (String → Option ℕ) → String → Env → Ended
  unfolding compile_libcsp generate_external_arch_headers emit_rerun_triggers generate_autoconfig
      generate_bindings
  run parse_u32 out env =
      acts works (emit_rerun_triggers ++ (create_dir "include/csp" ∷ []))
      then_run generate_autoconfig works parse_u32 env
      then_run (if uses_external_arch env
          then generate_external_arch_headers works
          else returned [])
      then_run compile_libcsp out env
      then_run acts works (
          when_steps (is_ropi_rwpi env) (
            compile "csp_ropi_rwpi_trampolines" [] [] [] ("src/arch/ropi_rwpi.S" ∷ [])
            ∷ rerun_if_changed "src/arch/ropi_rwpi.S"
            ∷ []))
      then_run generate_bindings out env
      then_run acts works (map link_lib (link_libs env))

  unfoldable pub main : (String → Option ℕ) → Env → Ended
  unfolding run unwrap
  main parse_u32 env = unwrap (env "OUT_DIR") (λ out. run parse_u32 out env)
