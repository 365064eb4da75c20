-- ===== src/Build/Bindings.antt =====
-- `generate_bindings` and `gcc_builtin_include`: the headers and the arguments given to bindgen.
-- `output` is the trimmed text that a program writes, `none` where it does not start; `exists` is
-- whether a path exists.
use Prim.Native.String.{◌++◌ as ◌<>◌}
use libcsp_rust.Base.{
  ℕ, ◌≤◌, ◌≡◌, ◌≢◌, refl, arith, List, [], ◌∷◌, ◌++◌, map, Bool, false, not, ◌&&◌, ◌||◌, Option,
  none, some, if◌then◌else◌, length, length-append, All, All-append, Bool-cases, inl, inr,
}
use libcsp_rust.Base.Texts.{String, same_text, is_some, unwrap_or, contains, when_texts}
use libcsp_rust.Build.{Env, target_os, is_embedded_target, uses_external_arch, target_is_bare}
use text.Mathlib.TextEquality.{eq_iff}
use libcsp_rust.Build.Config.{is_big_endian}

unfoldable pub target : Env → String
target env = unwrap_or (env "TARGET") ""

-- `is_arm_embedded` of `gcc_builtin_include`.
unfoldable pub is_bare_target : Env → Bool
unfolding target
is_bare_target env = contains (target env) "thumb" || contains (target env) "arm-none-eabi"

-- `is_arm_embedded` of `generate_bindings`.
unfoldable pub is_arm_embedded : Env → Bool
unfolding is_bare_target target_os
is_arm_embedded env =
    is_bare_target env || (same_text (target_os env) "none" || same_text (target_os env) "unknown")

-- A printed path, unless it is empty or says that there is none.
unfoldable pub usable : Option String → List String
usable none = []
usable (some path) = if same_text path "" || same_text path "include" then [] else path ∷ []

-- The first candidate that exists.
unfoldable pub first_existing : (String → Bool) → List String → List String
first_existing exists [] = []
first_existing exists (c ∷ candidates) =
    let rest = first_existing exists candidates in if exists c then c ∷ [] else rest

-- The compiler's path, else the system's if that exists.
unfoldable pub or_system : (String → Bool) → List String → List String
or_system exists [] = when_texts (exists "/usr/include") ("/usr/include" ∷ [])
or_system exists (p ∷ paths) = p ∷ paths

-- Where the SDK is, on macOS.
unfoldable pub sysroot : Option String → List String
sysroot none = []
sysroot (some sdk) = if same_text sdk "" then [] else ("-isysroot" <> sdk) ∷ []

module _ (output : String → List String → Option String) (exists : String → Bool) where
  unfoldable pub gcc_builtin_include : Env → List String
  unfolding is_bare_target usable first_existing or_system
  gcc_builtin_include env =
      if is_bare_target env
      then usable (output "arm-none-eabi-gcc" ("-print-file-name=include" ∷ []))
        ++ first_existing exists ("/usr/arm-none-eabi/include" ∷ "/usr/include/newlib" ∷ [])
      else or_system exists
          (usable (output (unwrap_or (env "CC") "cc") ("-print-file-name=include" ∷ [])))

  unfoldable pub clang_args : String → String → Env → List String
  unfolding gcc_builtin_include sysroot target is_arm_embedded is_big_endian
  clang_args include_dir gen_include_dir env =
      ("-I" <> include_dir)
        ∷ ("-I" <> gen_include_dir)
        ∷ (if is_big_endian env then "-DCSP_BIG_ENDIAN=1" else "-DCSP_LITTLE_ENDIAN=1")
        ∷ "-DCSP_USE_RTABLE=1"
        ∷ when_texts (is_arm_embedded env) (("--target=" <> target env) ∷ [])
      ++ when_texts (uses_external_arch env)
          (("-include" <> (gen_include_dir <> "/csp/csp_external_arch.h")) ∷ [])
      ++ (if not (same_text (target_os env) "macos")
          then map (λ path. "-isystem" <> path) (gcc_builtin_include env)
          else sysroot (output "xcrun" ("--show-sdk-path" ∷ [])))

-- The headers, below libcsp/include/csp.
unfoldable pub headers : Env → List String
unfolding is_arm_embedded
headers env =
    ("csp.h" ∷ "csp_cmp.h" ∷ "csp_sfp.h" ∷ "csp_id.h" ∷ "csp_hooks.h" ∷ "csp_interface.h"
      ∷ "csp_iflist.h" ∷ "csp_rtable.h" ∷ "csp_debug.h" ∷ "interfaces/csp_if_can.h" ∷ [])
    ++ when_texts (is_some (env "CARGO_FEATURE_HMAC")) ("crypto/csp_hmac.h" ∷ [])
    ++ when_texts (not (is_arm_embedded env) && same_text (target_os env) "linux")
        ("drivers/can_socketcan.h" ∷ [])

bare_target :
    (t : Option String)
    → target_is_bare t ≡ (contains (unwrap_or t "") "thumb" || contains (unwrap_or t "") "arm-none")
bare_target none = refl
bare_target (some t) = refl

regroup :
    (thumb eabi arm os_none os_unknown os_empty : Bool)
    → os_empty ≡ false
    → arm ≡ eabi
    → ((thumb || eabi) || (os_none || os_unknown))
      ≡ ((os_none || os_unknown || os_empty) || (thumb || arm))
regroup thumb eabi arm os_none os_unknown os_empty h e = ground arith

differs : (s t : String) → s ≢ t → same_text s t ≡ false
differs s t n = elim (Bool-cases (same_text s t)) [
  | inl same ↦ absurd (n ((eq_iff s t).0 same))
  | inr other ↦ other
]

-- Where the target system is named, and the target contains "arm-none" only as part of
-- "arm-none-eabi", the bindings are generated for a bare-metal target exactly when the library is
-- built for one.
pub is_arm_embedded-is_embedded_target :
    (env : Env)
    → target_os env ≢ ""
    → contains (target env) "arm-none" ≡ contains (target env) "arm-none-eabi"
    → is_arm_embedded env ≡ is_embedded_target env
unfolding is_arm_embedded is_bare_target target is_embedded_target
is_arm_embedded-is_embedded_target env named eabi = rw (bare_target (env "TARGET")) (
    regroup (contains (target env) "thumb") (contains (target env) "arm-none-eabi")
      (contains (target env) "arm-none") (same_text (target_os env) "none")
      (same_text (target_os env) "unknown") (same_text (target_os env) "")
      (differs (target_os env) "" named) eabi)

-- A list of at most `n` paths, none of them empty.
ArePaths : ℕ → List String → Type 0
ArePaths n paths = All (λ (path : String). same_text path "" ≡ false) paths × (length paths ≤ n)

usable-ArePaths : (o : Option String) → ArePaths 1 (usable o)
unfolding usable ArePaths
usable-ArePaths none = (tt, omega arith)
usable-ArePaths (some path) = elim (Bool-cases (same_text path "")) [
  | inl e ↦ rw e (tt, omega arith)
  | inr e ↦ ground (arith, e)
]

or_system-ArePaths :
    (exists : String → Bool) (paths : List String)
    → ArePaths 1 paths
    → ArePaths 1 (or_system exists paths)
unfolding or_system ArePaths
or_system-ArePaths exists [] h = elim (Bool-cases (exists "/usr/include")) [
  | inl e ↦ rw e ((refl, tt), omega arith)
  | inr e ↦ rw e (tt, omega arith)
]
or_system-ArePaths exists (p ∷ paths) h = h

newlib-ArePaths :
    (exists : String → Bool)
    → ArePaths 1 (first_existing exists ("/usr/arm-none-eabi/include" ∷ "/usr/include/newlib" ∷ []))
unfolding first_existing ArePaths
newlib-ArePaths exists = elim (Bool-cases (exists "/usr/arm-none-eabi/include")) [
  | inl e ↦ rw e ((refl, tt), omega arith)
  | inr e ↦ rw e (elim (Bool-cases (exists "/usr/include/newlib")) [
    | inl f ↦ rw f ((refl, tt), omega arith)
    | inr f ↦ rw f (tt, omega arith)
  ])
]

append-ArePaths : (xs ys : List String) → ArePaths 1 xs → ArePaths 1 ys → ArePaths 2 (xs ++ ys)
unfolding ArePaths
append-ArePaths xs ys h k = (
  All-append (λ (path : String). same_text path "" ≡ false) xs ys h.0 k.0,
  omega (arith, h.1, k.1, length-append xs ys),
)

-- There are at most two include paths, and none is the empty text.
pub gcc_builtin_include_lem :
    (output : String → List String → Option String) (exists : String → Bool) (env : Env)
    → All (λ (path : String). same_text path "" ≡ false) (gcc_builtin_include output exists env)
      × (length (gcc_builtin_include output exists env) ≤ 2)
unfolding gcc_builtin_include ArePaths
gcc_builtin_include_lem output exists env = elim (Bool-cases (is_bare_target env)) [
  | inl bare ↦ rw bare (
      append-ArePaths _ _
        (usable-ArePaths (output "arm-none-eabi-gcc" ("-print-file-name=include" ∷ [])))
        (newlib-ArePaths exists))
  | inr hosted ↦
      let p =
        or_system-ArePaths exists _ (
          usable-ArePaths (output (unwrap_or (env "CC") "cc") ("-print-file-name=include" ∷ []))) in
      rw hosted (p.0, omega (arith, p.1))
]
