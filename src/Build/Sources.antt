-- ===== src/Build/Sources.antt =====
-- Which sources are compiled.
use libcsp_rust.Base.{
  ℕ, ◌≤◌, ◌≡◌, inl, inr, refl, arith, List, [], ◌∷◌, ◌++◌, Bool, true, false, not, ◌&&◌, ◌||◌,
  Option, some, if◌then◌else◌, Bool-cases, ap, sym, ◌∙◌,
}
use libcsp_rust.Base.Texts.{
  String, same_text, is_some, when_texts, find_text, mem_text, count_text, mem_text-append,
  count_text-append, count_text-when,
}
use text.Mathlib.TextEquality.{eq_iff}
use libcsp_rust.Build.{Env, Value, num, uses_external_arch}
use libcsp_rust.Build.Config.{feat, hosted, settings, autoconfig, endian_define, is_big_endian}
use libcsp_rust.Build.Compile.{sources, blocks, chosen, Choices, choices}

-- Every source of the blocks, whatever their conditions.
abbrev everything : List (Bool × List String) → List String
everything [] = []
everything ((b, files) ∷ rest) = files ++ everything rest

count-chosen :
    (t : String) (bs : List (Bool × List String))
    → count_text t (chosen bs) ≤ count_text t (everything bs)
count-chosen t [] = omega arith
count-chosen t ((b, files) ∷ rest) = omega (
  arith,
  count_text-append t (when_texts b files) (chosen rest),
  count_text-append t files (everything rest),
  count_text-when t b files,
  count-chosen t rest,
)

-- No text stands twice.
abbrev distinct : List String → Bool
distinct [] = true
distinct (s ∷ texts) = not (mem_text s texts) && distinct texts

count-zero : (t : String) (texts : List String) → mem_text t texts ≡ false → count_text t texts ≡ 0
count-zero t [] h = refl
count-zero t (s ∷ texts) h = ground (arith, count-zero t texts)

count-distinct : (t : String) (texts : List String) → distinct texts ≡ true → count_text t texts ≤ 1
count-distinct t [] h = omega arith
count-distinct t (s ∷ texts) h =
    let (fresh, rest) = both h in
    elim (Bool-cases (same_text s t)) [
      | inl same ↦
          let absent : mem_text t texts ≡ false = rw (← (eq_iff s t).0 same) fresh in
          rw same (omega (arith, count-zero t texts absent))
      | inr differ ↦ rw differ (omega (arith, count-distinct t texts rest))
    ]
  where
    both :
        not (mem_text s texts) && distinct texts ≡ true
        → (mem_text s texts ≡ false) × (distinct texts ≡ true)
    both e = ground arith

-- Whatever the environment, no source is given to the compiler twice.
pub count-sources : (env : Env) (t : String) → count_text t (sources env) ≤ 1
unfolding sources blocks
count-sources env t =
    let bs = blocks (choices env) in
    omega (arith, count-chosen t bs, count-distinct t (everything bs) refl)

-- The condition on a text's block.
abbrev pub wanted : String → List (Bool × List String) → Bool
wanted t [] = false
wanted t ((b, files) ∷ rest) = (if b then mem_text t files else false) || wanted t rest

pub mem-chosen :
    (t : String) (bs : List (Bool × List String)) → mem_text t (chosen bs) ≡ wanted t bs
mem-chosen t [] = refl
mem-chosen t ((true, files) ∷ rest) =
    mem_text-append t files (chosen rest) ∙ ap (λ b. mem_text t files || b) (mem-chosen t rest)
mem-chosen t ((false, files) ∷ rest) = mem-chosen t rest

wanted_stdio : (c : Choices) → wanted "csp_rtable_stdio.c" (blocks c) ≡ not c.external
unfolding blocks
wanted_stdio c = ground arith

wanted_rdp : (c : Choices) → wanted "csp_rdp.c" (blocks c) ≡ c.rdp
unfolding blocks
wanted_rdp c = ground arith

wanted_hmac : (c : Choices) → wanted "crypto/csp_hmac.c" (blocks c) ≡ c.hmac
unfolding blocks
wanted_hmac c = ground arith

-- The macros of the header that switch those parts on.
module _ (parse_u32 : String → Option ℕ) (env : Env) where
  find_print :
      (big : Bool)
      → find_text "CSP_ENABLE_CSP_PRINT" (endian_define big ++ settings parse_u32 env)
        ≡ some (hosted env)
  unfolding endian_define settings
  find_print true = refl
  find_print false = refl

  find_rdp :
      (big : Bool)
      → find_text "CSP_USE_RDP" (endian_define big ++ settings parse_u32 env)
        ≡ some (feat env "CARGO_FEATURE_RDP")
  unfolding endian_define settings
  find_rdp true = refl
  find_rdp false = refl

  find_hmac :
      (big : Bool)
      → find_text "CSP_USE_HMAC" (endian_define big ++ settings parse_u32 env)
        ≡ some (feat env "CARGO_FEATURE_HMAC")
  unfolding endian_define settings
  find_hmac true = refl
  find_hmac false = refl

abbrev switch : Bool → Value
switch b = num (if b then 1 else 0)

feat-switch : (env : Env) (name : String) → feat env name ≡ switch (is_some (env name))
unfolding feat
feat-switch env name = ground arith

hosted-switch : (env : Env) → hosted env ≡ switch (not (uses_external_arch env))
unfolding hosted
hosted-switch env = ground arith

-- Whatever the environment, csp_rtable_stdio.c, csp_rdp.c and crypto/csp_hmac.c are each compiled exactly
-- when csp/autoconfig.h has 1 for csp_print, RDP or HMAC, and the header has 0 there otherwise.
pub sources-autoconfig :
    (parse_u32 : String → Option ℕ) (env : Env)
    → (find_text "CSP_ENABLE_CSP_PRINT" (autoconfig parse_u32 env)
        ≡ some (num (if mem_text "csp_rtable_stdio.c" (sources env) then 1 else 0)))
      × (find_text "CSP_USE_RDP" (autoconfig parse_u32 env)
          ≡ some (num (if mem_text "csp_rdp.c" (sources env) then 1 else 0)))
      × (find_text "CSP_USE_HMAC" (autoconfig parse_u32 env)
          ≡ some (num (if mem_text "crypto/csp_hmac.c" (sources env) then 1 else 0)))
unfolding autoconfig sources choices
sources-autoconfig parse_u32 env =
    let c = choices env in
    let bs = blocks c in
    let big = is_big_endian env in
    let mem : (t : String) (b : Bool)
        → wanted t bs ≡ b
        → switch b ≡ switch (mem_text t (chosen bs)) =
      λ t b e. ap switch (sym (mem-chosen t bs ∙ e)) in
    (
      find_print parse_u32 env big
          ∙ ap some
              (hosted-switch env ∙ mem "csp_rtable_stdio.c" (not c.external) (wanted_stdio c)),
      find_rdp parse_u32 env big
          ∙ ap some (feat-switch env "CARGO_FEATURE_RDP" ∙ mem "csp_rdp.c" c.rdp (wanted_rdp c)),
      find_hmac parse_u32 env big
          ∙ ap some (
              feat-switch env "CARGO_FEATURE_HMAC"
              ∙ mem "crypto/csp_hmac.c" c.hmac (wanted_hmac c)),
    )
