-- ===== src/Build/Steps/Order.antt =====
-- In which order the build script of build.rs writes and reads the generated files, and when it stops.
use libcsp_rust.Base.{
  ℕ, List, [], ◌∷◌, ◌++◌, map, Bool, true, false, not, ◌&&◌, ◌||◌, Option, ◌≡◌, refl, arith, ap,
  sym, ◌∙◌, inl, inr, Bool-cases, Option-cases,
}
use Prim.Native.String.{◌++◌ as ◌<>◌}
use libcsp_rust.Base.Texts.{String, same_text, is_some, when_texts, mem_text}
use libcsp_rust.Build.{Env, is_embedded_target, uses_external_arch}
use libcsp_rust.Build.Config.{rerun_variables, rustc_env}
use libcsp_rust.Build.Compile.{flags, sources, blocks, choices, Choices, link_libs, is_ropi_rwpi}
use libcsp_rust.Build.Sources.{mem-chosen, wanted}
use libcsp_rust.Build.Bindings.{clang_args, headers}
use libcsp_rust.Build.Steps.Failures.{
  has_returned, steps_of, always, acts-always, until_failure, all_work, cut_short, cut_short-acts,
  cut_short-then_run, cut_short-if, cut_short-or_panic, has_returned-cut_short, steps_of-cut_short,
}
use libcsp_rust.Build.Steps.{
  Step, create_dir, write_macros, write, compile, bind, write_bindings, act, acts, rerun_if_changed,
  rerun_if_env_changed, export_env, link_lib, ◌then_run◌, when_steps, unwrap, emit_rerun_triggers,
  generate_external_arch_headers, generate_autoconfig, compile_mini_scanf, compile_libcsp,
  generate_bindings, run, main,
}

-- The generated files that a step reads, and those that it writes. What bindgen is given includes the
-- header of the external architecture where there is one.
abbrev pub needs : Bool → Step → List String
needs external (compile name includes macros flags' files) =
    when_texts (same_text name "csp") ("include/csp/autoconfig.h" ∷ [])
    ++ when_texts (mem_text "csp/csp_external_arch.h" flags')
        ("include/csp/csp_external_arch.h" ∷ [])
    ++ when_texts (mem_text "csp_relax_default.c" files) ("include/csp_relax_default.c" ∷ [])
needs external (bind args headers') =
    "include/csp/autoconfig.h" ∷ when_texts external ("include/csp/csp_external_arch.h" ∷ [])
needs external (write_bindings path) = []
needs external (create_dir path) = []
needs external (write_macros path macros) = []
needs external (write path lines) = []
needs external (rerun_if_changed path) = []
needs external (rerun_if_env_changed name) = []
needs external (export_env entry) = []
needs external (link_lib name) = []

abbrev pub writes : Step → List String
writes (write_macros path macros) = path ∷ []
writes (write path lines) = path ∷ []
writes (compile name includes macros flags' files) = []
writes (bind args headers') = []
writes (write_bindings path) = path ∷ []
writes (create_dir path) = []
writes (rerun_if_changed path) = []
writes (rerun_if_env_changed name) = []
writes (export_env entry) = []
writes (link_lib name) = []

abbrev pub all_in : List String → List String → Bool
all_in [] present = true
all_in (t ∷ texts) present = mem_text t present && all_in texts present

-- Each generated file is written before a step that reads it.
abbrev pub in_order : Bool → List String → List Step → Bool
in_order external present [] = true
in_order external present (s ∷ steps) =
    all_in (needs external s) present && in_order external (writes s ++ present) steps

wanted_relax : (c : Choices) → wanted "csp_relax_default.c" (blocks c) ≡ not c.external
unfolding blocks
wanted_relax c = ground arith

relax-sources :
    (env : Env) → mem_text "csp_relax_default.c" (sources env) ≡ not (uses_external_arch env)
unfolding sources choices
relax-sources env =
    mem-chosen "csp_relax_default.c" (blocks (choices env)) ∙ wanted_relax (choices env)

header-flags : (env : Env) → mem_text "csp/csp_external_arch.h" (flags env) ≡ uses_external_arch env
unfolding flags
header-flags env = elim (Bool-cases (uses_external_arch env)) [
  | inl e ↦ rw e refl
  | inr e ↦ elim (Bool-cases (is_ropi_rwpi env)) [ inl f ↦ rw (e, f) refl | inr f ↦ rw (e, f) refl ]
]

in_order-links :
    (external : Bool) (present names : List String)
    → in_order external present (map link_lib names) ≡ true
in_order-links external present [] = refl
in_order-links external present (name ∷ names) = in_order-links external present names

-- The end of a script that has compiled the library and bound it.
in_order-end :
    (external ropi : Bool) (args headers' : List String) (present links : List String)
    → all_in (needs external (bind args headers')) present ≡ true
    → in_order external present (
        when_steps ropi (
          compile "csp_ropi_rwpi_trampolines" [] [] [] ("src/arch/ropi_rwpi.S" ∷ [])
          ∷ rerun_if_changed "src/arch/ropi_rwpi.S"
          ∷ [])
        ++ (bind args headers' ∷ write_bindings "bindings.rs" ∷ map link_lib links))
      ≡ true
in_order-end external true args headers' present links h =
    rw (h, in_order-links external ("bindings.rs" ∷ present) links) refl
in_order-end external false args headers' present links h =
    rw (h, in_order-links external ("bindings.rs" ∷ present) links) refl

in_order-until_failure :
    (works : Step → Bool) (external : Bool) (present : List String) (steps : List Step)
    → in_order external present steps ≡ true
    → in_order external present (until_failure works steps) ≡ true
in_order-until_failure works external present [] h = refl
in_order-until_failure works external present (s ∷ steps) h = elim (Bool-cases (works s)) [
  | inl e ↦ elim (Bool-cases (all_in (needs external s) present)) [
    | inl f ↦
        rw (e, f) (in_order-until_failure works external (writes s ++ present) steps (rw f at h))
    | inr f ↦ absurd (ground (arith, h, f))
  ]
  | inr e ↦ rw e refl
]

module _ (output : String → List String → Option String) (exists : String → Bool) where
  in_order-run :
      (parse_u32 : String → Option ℕ) (out : String) (env : Env)
      → in_order (uses_external_arch env) [] (steps_of (run always output exists parse_u32 out env))
        ≡ true
  unfolding run compile_libcsp generate_external_arch_headers emit_rerun_triggers
      generate_autoconfig generate_bindings compile_mini_scanf rerun_variables rustc_env ◌then_run◌
      acts act
  in_order-run parse_u32 out env =
      let shim = is_embedded_target env && not (exists (out <> "/include/endian.h")) in
      let trampolines = when_steps (is_ropi_rwpi env) (
        compile "csp_ropi_rwpi_trampolines" [] [] [] ("src/arch/ropi_rwpi.S" ∷ [])
        ∷ rerun_if_changed "src/arch/ropi_rwpi.S"
        ∷ []) in
      let ropi = acts-always trampolines in
      let links = acts-always (map link_lib (link_libs env)) in
      let last : (external : Bool) (present : List String) → _ = λ external present.
        in_order-end external (is_ropi_rwpi env)
          (clang_args output exists "libcsp/include" (out <> "/include") env) (headers env) present
          (link_libs env) in
      elim (Bool-cases (uses_external_arch env)) [
        | inl e ↦ elim (Bool-cases shim) [
          | inl f ↦ elim (Bool-cases (exists "libcsp-sys/mini-scanf/c_scan.c")) [
            | inl g ↦
                rw (e, f, g, ropi, links, header-flags env ∙ e, relax-sources env ∙ ap not e)
                  (last true _ refl)
            | inr g ↦ rw (e, f, g) refl
          ]
          | inr f ↦ elim (Bool-cases (exists "libcsp-sys/mini-scanf/c_scan.c")) [
            | inl g ↦
                rw (e, f, g, ropi, links, header-flags env ∙ e, relax-sources env ∙ ap not e)
                  (last true _ refl)
            | inr g ↦ rw (e, f, g) refl
          ]
        ]
        | inr e ↦ elim (Bool-cases shim) [
          | inl f ↦
              rw (e, f, ropi, links, header-flags env ∙ e, relax-sources env ∙ ap not e)
                (last false _ refl)
          | inr f ↦
              rw (e, f, ropi, links, header-flags env ∙ e, relax-sources env ∙ ap not e)
                (last false _ refl)
        ]
      ]

  ends-run :
      (parse_u32 : String → Option ℕ) (out : String) (env : Env)
      → has_returned (run always output exists parse_u32 out env)
        ≡ (not (uses_external_arch env) || exists "libcsp-sys/mini-scanf/c_scan.c")
  unfolding run compile_libcsp generate_external_arch_headers emit_rerun_triggers
      generate_autoconfig generate_bindings compile_mini_scanf rerun_variables rustc_env ◌then_run◌
      acts act
  ends-run parse_u32 out env =
      let shim = acts-always (
        when_steps (is_embedded_target env && not (exists (out <> "/include/endian.h")))
          (write "include/endian.h" ("#pragma once" ∷ "#include <sys/endian.h>" ∷ []) ∷ [])) in
      let trampolines = when_steps (is_ropi_rwpi env) (
        compile "csp_ropi_rwpi_trampolines" [] [] [] ("src/arch/ropi_rwpi.S" ∷ [])
        ∷ rerun_if_changed "src/arch/ropi_rwpi.S"
        ∷ []) in
      let ropi = acts-always trampolines in
      let links = acts-always (map link_lib (link_libs env)) in
      elim (Bool-cases (uses_external_arch env)) [
        | inl e ↦ elim (Bool-cases (exists "libcsp-sys/mini-scanf/c_scan.c")) [
          | inl f ↦ rw (e, f, shim, ropi, links) refl
          | inr f ↦ rw (e, f, shim) refl
        ]
        | inr e ↦ rw (e, shim, ropi, links) refl
      ]

  module _ (works : Step → Bool) where
    cut_short-run :
        (parse_u32 : String → Option ℕ) (out : String) (env : Env)
        → cut_short works (run always output exists parse_u32 out env)
          ≡ run works output exists parse_u32 out env
    unfolding run compile_libcsp generate_external_arch_headers generate_autoconfig
        generate_bindings compile_mini_scanf
    cut_short-run parse_u32 out env = simp (
      cut_short-then_run works,
      cut_short-acts works,
      cut_short-if works,
      cut_short-or_panic works,
    )

    cut_short-main :
        (parse_u32 : String → Option ℕ) (env : Env)
        → main works output exists parse_u32 env
          ≡ cut_short works (main always output exists parse_u32 env)
    unfolding main unwrap cut_short
    cut_short-main parse_u32 env = elim (Option-cases (env "OUT_DIR")) [
      | inl e ↦ rw e refl
      | inr (out, e) ↦ rw e (sym (cut_short-run parse_u32 out env))
    ]

    planned_lem :
        (parse_u32 : String → Option ℕ) (env : Env)
        → let planned = main always output exists parse_u32 env in
          (has_returned planned ≡ (
            is_some (env "OUT_DIR")
            && (not (uses_external_arch env) || exists "libcsp-sys/mini-scanf/c_scan.c")))
          × (in_order (uses_external_arch env) [] (steps_of planned) ≡ true)
    unfolding main unwrap
    planned_lem parse_u32 env = elim (Option-cases (env "OUT_DIR")) [
      | inl e ↦ rw e (refl, refl)
      | inr (out, e) ↦ rw e (ends-run parse_u32 out env, in_order-run parse_u32 out env)
    ]

    -- With paths that are UTF-8: of the script in which every action succeeds, the build script
    -- does the steps before the first one that fails: a directory made, a file written, a library
    -- compiled, the bindings generated or written, a line printed. It ends without a panic, and
    -- without being ended by cc, exactly when OUT_DIR is set, the submodule of mini-scanf is there
    -- where the architecture is external, and no action fails. However it ends, csp/autoconfig.h,
    -- the header of the external architecture and csp_relax_default.c are each written before a
    -- compilation or bindgen reads them.
    pub main_lem :
        (parse_u32 : String → Option ℕ) (env : Env)
        → let done = main works output exists parse_u32 env in
          let planned = steps_of (main always output exists parse_u32 env) in
          (steps_of done ≡ until_failure works planned)
          × (has_returned done ≡ (
              (is_some (env "OUT_DIR")
                && (not (uses_external_arch env) || exists "libcsp-sys/mini-scanf/c_scan.c"))
              && all_work works planned))
          × (in_order (uses_external_arch env) [] (steps_of done) ≡ true)
    main_lem parse_u32 env =
        let planned = main always output exists parse_u32 env in
        let cut = cut_short-main parse_u32 env in
        let (ends, ordered) = planned_lem parse_u32 env in
        let steps : steps_of (main works output exists parse_u32 env)
            ≡ until_failure works (steps_of planned) =
          ap steps_of cut ∙ steps_of-cut_short works planned in
        (
          steps,
          ap has_returned cut
              ∙ has_returned-cut_short works planned
              ∙ ap (λ b. b && all_work works (steps_of planned)) ends,
          ap (in_order (uses_external_arch env) []) steps
              ∙ in_order-until_failure works (uses_external_arch env) [] (steps_of planned) ordered,
        )
