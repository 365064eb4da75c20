-- ===== src/Build/Agree.antt =====
-- What the parts of the build agree on.
use libcsp_rust.Base.{
  ℕ, ◌≡◌, ◌⊎◌, inl, inr, refl, List, [], ◌∷◌, ◌++◌, Bool, true, false, Option, some, if◌then◌else◌,
  All,
}
use libcsp_rust.Base.Texts.{String, same_text, find_text}
use libcsp_rust.Build.{Env, num, uses_external_arch}
use libcsp_rust.Build.Config.{
  Define, settings, autoconfig, endian_define, is_big_endian, rustc_env, cfg_u32, rerun_variables,
}
use libcsp_rust.Build.Compile.{defines}

-- A macro of the command line has the value of the header, if the header has it.
abbrev pub AgreesWith : List Define → Define → Type 0
AgreesWith header (name, v) = (find_text name header ≡ some v) ⊎ (same_text name "CSP_POSIX" ≡ true)

posix_agrees :
    (header : List Define) (external : Bool)
    → All (AgreesWith header) (if external then [] else ("CSP_POSIX", num 1) ∷ [])
posix_agrees header true = tt
posix_agrees header false = (inr refl, tt)

module _ (parse_u32 : String → Option ℕ) (env : Env) where
  agrees_at :
      (big : Bool) → All (AgreesWith (endian_define big ++ settings parse_u32 env)) (defines env)
  unfolding settings endian_define defines
  agrees_at true =
      let posix =
        posix_agrees (endian_define true ++ settings parse_u32 env) (uses_external_arch env) in
      (
        inl refl,
        (
          inl refl,
          (
            inl refl,
            (
              inl refl,
              (
                inl refl,
                (
                  inl refl,
                  (inl refl, (inl refl, (inl refl, (inl refl, (inl refl, (inl refl, posix)))))),
                ),
              ),
            ),
          ),
        ),
      )
  agrees_at false =
      let posix =
        posix_agrees (endian_define false ++ settings parse_u32 env) (uses_external_arch env) in
      (
        inl refl,
        (
          inl refl,
          (
            inl refl,
            (
              inl refl,
              (
                inl refl,
                (
                  inl refl,
                  (inl refl, (inl refl, (inl refl, (inl refl, (inl refl, (inl refl, posix)))))),
                ),
              ),
            ),
          ),
        ),
      )

  -- Whatever the environment, each macro of the compiler's command line has the value that
  -- csp/autoconfig.h gives it, but for CSP_POSIX.
  pub defines-autoconfig : All (AgreesWith (autoconfig parse_u32 env)) (defines env)
  unfolding autoconfig
  defines-autoconfig = agrees_at (is_big_endian env)

  -- A size as the Rust code sees it.
  abbrev pub HasSize : String × ℕ → Type 0
  HasSize (name, n) = find_text name (autoconfig parse_u32 env) ≡ some (num n)

  sizes_at :
      (big : Bool)
      → All
          (λ ((name, n) : String × ℕ).
            find_text name (endian_define big ++ settings parse_u32 env) ≡ some (num n))
          (rustc_env parse_u32 env)
  unfolding settings endian_define rustc_env
  sizes_at true = (refl, (refl, (refl, (refl, (refl, (refl, (refl, (refl, (refl, (refl, tt))))))))))
  sizes_at false =
      (refl, (refl, (refl, (refl, (refl, (refl, (refl, (refl, (refl, (refl, tt))))))))))

  -- Whatever the environment, each size exported to the Rust code is the one in csp/autoconfig.h.
  pub rustc_env-autoconfig : All HasSize (rustc_env parse_u32 env)
  unfolding autoconfig
  rustc_env-autoconfig = sizes_at (is_big_endian env)

-- The variables that `rustc_env` reads.
module _ (parse_u32 : String → Option ℕ) where
  -- If two environments agree on the variables that cause a new build, the sizes do not change.
  pub rustc_env-cong :
      (env env' : Env)
      → All (λ (name : String). env name ≡ env' name) rerun_variables
      → rustc_env parse_u32 env ≡ rustc_env parse_u32 env'
  unfolding rustc_env cfg_u32 rerun_variables
  rustc_env-cong env env' h =
      let (a, (b, (c, (d, (e, (f, (g, (i, (j, (k, _)))))))))) = h in
      rw (a, b, c, d, e, f, g, i, j, k) refl
