-- ===== src/Base/Texts.antt =====
-- Texts that are compared as a whole, lists of them, and association lists from them.
use Prim.Native.Nat.{ℕ, ◌+◌, ◌≤◌}
use Prim.Native.String.{String}
use mathlib.Core.Path.{◌≡◌, refl}
use mathlib.Core.Bool.{Bool, true, false, ◌||◌}
use mathlib.Core.Option.{Option, none, some}
use mathlib.Core.List.{List, [], ◌∷◌, ◌++◌}
use native.Mathlib.Omega.{arith}
use text.Mathlib.Text.{◌==◌ as text_eq, find?}
use libcsp_rust.Base.Tests.{if◌then◌else◌}
pub use Prim.Native.String.{String}

abbrev pub same_text : String → String → Bool
same_text s t = text_eq s t

abbrev pub is_some {ℓ} : {A : Type ℓ} → Option A → Bool
is_some none = false
is_some (some a) = true

abbrev pub unwrap_or {ℓ} : {A : Type ℓ} → Option A → A → A
unwrap_or none d = d
unwrap_or (some a) d = a

-- `str::contains`
abbrev pub contains : String → String → Bool
contains s part = is_some (find? s part)

abbrev pub mem_text : String → List String → Bool
mem_text t [] = false
mem_text t (s ∷ texts) = same_text s t || mem_text t texts

abbrev pub count_text : String → List String → ℕ
count_text t [] = 0
count_text t (s ∷ texts) = (if same_text s t then 1 else 0) + count_text t texts

abbrev pub when_texts : Bool → List String → List String
when_texts true texts = texts
when_texts false texts = []

module _ {ℓ} {A : Type ℓ} where
  abbrev pub find_text : String → List (String × A) → Option A
  find_text t [] = none
  find_text t ((s, a) ∷ entries) = if same_text s t then some a else find_text t entries

pub mem_text-append :
    (t : String) (xs ys : List String) → mem_text t (xs ++ ys) ≡ (mem_text t xs || mem_text t ys)
mem_text-append t [] ys = refl
mem_text-append t (x ∷ xs) ys = ground (arith, mem_text-append t xs ys)

pub count_text-append :
    (t : String) (xs ys : List String) → count_text t (xs ++ ys) ≡ count_text t xs + count_text t ys
count_text-append t [] ys = omega arith
count_text-append t (x ∷ xs) ys = omega (arith, count_text-append t xs ys)

pub count_text-when :
    (t : String) (b : Bool) (xs : List String) → count_text t (when_texts b xs) ≤ count_text t xs
count_text-when t true xs = omega arith
count_text-when t false xs = omega arith
