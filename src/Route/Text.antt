-- ===== src/Route/Text.antt =====
-- Tables as texts: what `load` accepts, and that what `save` gives can be loaded.
use libcsp_rust.Base.{
  ℕ, List, ◌∷◌, ◌++◌, Bool, false, true, if◌then◌else◌, ◌≡◌, ◌↔◌, refl, arith, replicate,
}
use libcsp_rust.Base.Int.{ℤ, pos}
use libcsp_rust.CText.{has_nul, cstring_new, has_nul-until_nul, until_nul-terminated}
use libcsp_rust.Error.{invalid_argument, Result, ok, err, csp_result}
use libcsp_rust.Route.{counted, counted_text, load, from_utf8, saved, save}

-- `load` succeeds with n exactly when the build is not for an external architecture, the text holds
-- no NUL, and libcsp returns n for it.
pub load-ok_iff :
    (external_arch : Bool) (rtable_load : List ℕ → ℤ) (table : List ℕ) (n : ℕ)
    → (load external_arch rtable_load table ≡ ok n)
      ↔ ((external_arch ≡ false) × (has_nul table ≡ false) × (rtable_load table ≡ pos n))
unfolding load counted_text counted cstring_new
load-ok_iff external_arch rtable_load table n = ground arith

has_nul-saved :
    (is_utf8 : List ℕ → Bool) (r : Result (Unit {0})) (buf table : List ℕ)
    → saved is_utf8 r buf ≡ ok table
    → has_nul table ≡ false
unfolding saved from_utf8
has_nul-saved is_utf8 (ok u) buf table h = ground (arith, has_nul-until_nul buf)
has_nul-saved is_utf8 (err e) buf table h = ground arith

-- What `save` gives holds no NUL, so `load` hands it to libcsp as it is.
pub load-save :
    (is_utf8 : List ℕ → Bool) (rtable_save : List ℕ → ℤ × List ℕ) (rtable_load : List ℕ → ℤ)
    (buf_size : ℕ) (table : List ℕ)
    → save false is_utf8 rtable_save buf_size ≡ ok table
    → load false rtable_load table ≡ counted (rtable_load table)
unfolding load save saved from_utf8 counted_text cstring_new
load-save is_utf8 rtable_save rtable_load buf_size table h = ground (
  arith,
  has_nul-saved is_utf8 (csp_result (rtable_save (replicate buf_size 0)).0)
      (rtable_save (replicate buf_size 0)).1 table,
)

-- Where libcsp succeeds and leaves a text with its NUL in the buffer, `save` gives that text if it
-- is UTF-8, and refuses it otherwise.
pub save-terminated :
    (is_utf8 : List ℕ → Bool) (rtable_save : List ℕ → ℤ × List ℕ) (buf_size : ℕ)
    (text rest : List ℕ)
    → rtable_save (replicate buf_size 0) ≡ (pos 0, text ++ 0 ∷ rest)
    → has_nul text ≡ false
    → save false is_utf8 rtable_save buf_size
      ≡ (if is_utf8 text then ok text else err invalid_argument)
unfolding save saved from_utf8 csp_result
save-terminated is_utf8 rtable_save buf_size text rest e h =
    rw (e, until_nul-terminated text rest h) refl

-- Where libcsp leaves a UTF-8 text with its NUL in the buffer, and returns n when it loads that text,
-- `save` gives the text and `load` of it returns n.
pub save-load_roundtrip :
    (is_utf8 : List ℕ → Bool) (rtable_save : List ℕ → ℤ × List ℕ) (rtable_load : List ℕ → ℤ)
    (buf_size n : ℕ) (text rest : List ℕ)
    → rtable_save (replicate buf_size 0) ≡ (pos 0, text ++ 0 ∷ rest)
    → has_nul text ≡ false
    → is_utf8 text ≡ true
    → rtable_load text ≡ pos n
    → (save false is_utf8 rtable_save buf_size ≡ ok text) × (load false rtable_load text ≡ ok n)
unfolding counted
save-load_roundtrip is_utf8 rtable_save rtable_load buf_size n text rest e h u l =
    let saved_text : save false is_utf8 rtable_save buf_size ≡ ok text =
      rw u at (save-terminated is_utf8 rtable_save buf_size text rest e h) in
    (saved_text, (load-ok_iff false rtable_load text n).1 (refl, h, l))
