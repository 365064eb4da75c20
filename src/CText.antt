-- ===== src/CText.antt =====
-- Texts on their way to C and back: `CString::new` of the standard library refuses a text that holds
-- a NUL, and `CStr::from_ptr` reads up to the first one.
use libcsp_rust.Base.{
  ℕ, List, [], ◌∷◌, ◌++◌, Bool, false, ◌||◌, Option, none, some, ◌==◌, if◌then◌else◌, ◌≡◌, refl,
  arith,
}

abbrev pub has_nul : List ℕ → Bool
has_nul [] = false
has_nul (c ∷ text) = c == 0 || has_nul text

unfoldable pub cstring_new : List ℕ → Option (List ℕ)
cstring_new text = if has_nul text then none else some text

-- The bytes before the first NUL, all of them where there is none.
abbrev pub until_nul : List ℕ → List ℕ
until_nul [] = []
until_nul (b ∷ bytes) = let rest = until_nul bytes in if b == 0 then [] else b ∷ rest

pub has_nul-until_nul : (bytes : List ℕ) → has_nul (until_nul bytes) ≡ false
has_nul-until_nul [] = refl
has_nul-until_nul (b ∷ bytes) = ground (arith, has_nul-until_nul bytes)

pub until_nul-terminated :
    (text rest : List ℕ) → has_nul text ≡ false → until_nul (text ++ 0 ∷ rest) ≡ text
until_nul-terminated [] rest h = refl
until_nul-terminated (c ∷ text) rest h = ground (arith, until_nul-terminated text rest)

-- `CStr::from_ptr` on a field: it reads past the field where that holds no NUL, `none`.
unfoldable pub cstr_from_ptr : List ℕ → Option (List ℕ)
cstr_from_ptr field = if has_nul field then some (until_nul field) else none
