-- ===== src/Arch/CString.antt =====
-- The C string functions of `trait CspArch` and `strncmp` of `export_arch!` (src/arch.rs). A pointer
-- is the list of the bytes from it to the end of its allocation, and an access past that end is
-- `none`. `char` is read as a byte.
pub mod Spec
pub mod Copy
pub mod Compare
pub mod Token
pub mod Split
use libcsp_rust.Base.{
  ℕ, zero, suc, ◌+◌, ◌-◌, List, [], ◌∷◌, Bool, true, false, ◌&&◌, ◌||◌, not, Option, none, some,
  ltb, leb, ◌==◌, if◌then◌else◌, length, get_elem?, set,
}
use libcsp_rust.Base.Int.{ℤ, pos, sub_ℕ}

infixl 5 ◌>>=◌
abbrev pub ◌>>=◌ {ℓ κ} : {A : Type ℓ} {B : Type κ} → Option A → (A → Option B) → Option B
none >>= f = none
some a >>= f = f a

abbrev pub load : List ℕ → ℕ → Option ℕ
load mem i = get_elem? mem i

abbrev pub store : List ℕ → ℕ → ℕ → Option (List ℕ)
store mem i v = if ltb i (length mem) then some (set mem i v) else none

-- `strncpy`: the first loop at index `i`, with `n - i` rounds left; the index at which it stops, the
-- rounds left there, and the destination.
unfoldable pub copy_chars : ℕ → ℕ → List ℕ → List ℕ → Option (ℕ × ℕ × List ℕ)
copy_chars zero i dest src = some (0, i, dest)
copy_chars (suc left) i dest src = do
  c ← load src i
  if c == 0
      then some (suc left, i, dest)
      else (store dest i c >>= λ dest'. copy_chars left (i + 1) dest' src)

-- `strncpy`: the second loop.
unfoldable pub pad_zeros : ℕ → ℕ → List ℕ → Option (List ℕ)
pad_zeros zero i dest = some dest
pad_zeros (suc left) i dest = store dest i 0 >>= pad_zeros left (i + 1)

unfoldable pub strncpy : List ℕ → List ℕ → ℕ → Option (List ℕ)
strncpy dest src n = copy_chars n 0 dest src >>= λ r. pad_zeros r.0 r.1 r.2

-- `strcpy`: its loop, with fuel.
unfoldable pub strcpy_loop : ℕ → ℕ → List ℕ → List ℕ → Option (List ℕ)
strcpy_loop zero i dest src = none
strcpy_loop (suc fuel) i dest src = do
  c ← load src i
  dest' ← store dest i c
  let rest = strcpy_loop fuel (i + 1) dest' src
  if c == 0 then some dest' else rest

unfoldable pub strcpy : ℕ → List ℕ → List ℕ → Option (List ℕ)
strcpy fuel dest src = strcpy_loop fuel 0 dest src

-- `strnlen`: its loop at length `len`, with `maxlen - len` rounds left.
unfoldable pub strnlen_loop : ℕ → ℕ → List ℕ → Option ℕ
strnlen_loop zero len s = some len
strnlen_loop (suc left) len s = do
  c ← load s len
  let rest = strnlen_loop left (len + 1) s
  if c == 0 then some len else rest

unfoldable pub strnlen : List ℕ → ℕ → Option ℕ
strnlen s maxlen = strnlen_loop maxlen 0 s

-- `u8::to_ascii_lowercase`
abbrev pub lower : ℕ → ℕ
lower c = if leb 65 c && leb c 90 then c + 32 else c

-- `strncasecmp`: its loop at index `i`, with `n - i` rounds left.
unfoldable pub strncasecmp_loop : ℕ → ℕ → List ℕ → List ℕ → Option ℤ
strncasecmp_loop zero i s1 s2 = some (pos 0)
strncasecmp_loop (suc left) i s1 s2 = do
  b1 ← load s1 i
  b2 ← load s2 i
  let c1 = lower b1
  let c2 = lower b2
  let rest = strncasecmp_loop left (i + 1) s1 s2
  if not (c1 == c2) || c1 == 0 then some (sub_ℕ c1 c2) else rest

unfoldable pub strncasecmp : List ℕ → List ℕ → ℕ → Option ℤ
strncasecmp s1 s2 n = strncasecmp_loop n 0 s1 s2

-- `strncmp`: its loop.
unfoldable pub strncmp_loop : ℕ → ℕ → List ℕ → List ℕ → Option ℤ
strncmp_loop zero i s1 s2 = some (pos 0)
strncmp_loop (suc left) i s1 s2 = do
  a ← load s1 i
  b ← load s2 i
  let rest = strncmp_loop left (i + 1) s1 s2
  if not (a == b) then some (sub_ℕ a b) else (if a == 0 then some (pos 0) else rest)

unfoldable pub strncmp : List ℕ → List ℕ → ℕ → Option ℤ
strncmp s1 s2 n = strncmp_loop n 0 s1 s2

-- `strtok_r`: the search of `c` in the delimiters.
unfoldable pub is_delim : List ℕ → ℕ → Option Bool
is_delim [] c = none
is_delim (d ∷ delim) c =
    let rest = is_delim delim c in
    if d == 0 then some false else (if c == d then some true else rest)

-- `strtok_r`: the loop over leading delimiters, from offset `p`.
unfoldable pub skip_delims : ℕ → List ℕ → List ℕ → ℕ → Option ℕ
skip_delims zero buf delim p = none
skip_delims (suc fuel) buf delim p = do
  c ← load buf p
  let rest = skip_delims fuel buf delim (p + 1)
  if c == 0 then some p else (is_delim delim c >>= λ b. if b then rest else some p)

-- `strtok_r`: the loop to the end of the token; the buffer, and the offset at which it stops.
unfoldable pub find_end : ℕ → List ℕ → List ℕ → ℕ → Option (List ℕ × ℕ)
find_end zero buf delim p = none
find_end (suc fuel) buf delim p = do
  c ← load buf p
  let rest = find_end fuel buf delim (p + 1)
  let cut = store buf p 0 >>= λ buf'. some (buf', p + 1)
  if c == 0 then some (buf, p) else (is_delim delim c >>= λ b. if b then cut else rest)

-- The buffer after a call of `strtok_r`, the saved pointer, and the returned token: pointers are
-- offsets into the buffer, and null is `none`.
pub record Tok : Type 0 where
  pub buf : List ℕ
  pub saveptr : Option ℕ
  pub token : Option ℕ

unfoldable pub strtok_from : ℕ → List ℕ → List ℕ → ℕ → Option Tok
unfolding skip_delims find_end
strtok_from fuel buf delim p = do
  start ← skip_delims fuel buf delim p
  c ← load buf start
  if c == 0
      then some (record { buf = buf; saveptr = none; token = none })
      else (find_end fuel buf delim start >>= λ r.
          some (record { buf = r.0; saveptr = some r.1; token = some start }))

-- `str` is `s`, or the saved pointer where `s` is null.
unfoldable pub strtok_r : ℕ → List ℕ → Option ℕ → List ℕ → Option ℕ → Option Tok
unfolding strtok_from
strtok_r fuel buf (some s) delim saveptr = strtok_from fuel buf delim s
strtok_r fuel buf none delim (some p) = strtok_from fuel buf delim p
strtok_r fuel buf none delim none = some (record { buf = buf; saveptr = none; token = none })
