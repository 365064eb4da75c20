-- ===== src/Cmp/Ident.antt =====
-- src/service.rs: the request `ident` of the management protocol. What libcsp's `csp_cmp` returns and
-- writes into the message is a parameter, and so is the decoding of the bytes of a text.
use libcsp_rust.Base.{
  ℕ, List, Bool, false, ◌&&◌, Option, none, some, if◌then◌else◌, ◌≡◌, ◌↔◌, arith,
}
use libcsp_rust.Base.Int.{ℤ, pos, ◌==ℤ◌, ==ℤ_iff}
use libcsp_rust.CText.{has_nul, cstr_from_ptr}
use libcsp_rust.Error.{from_code, Result, ok, err}

-- The character arrays of the message's union field.
pub record IdentMessage : Type 0 where
  pub hostname : List ℕ
  pub model : List ℕ
  pub revision : List ℕ
  pub date : List ℕ
  pub time : List ℕ

pub record Ident {ℓ} (S : Type ℓ) : Type ℓ where
  pub hostname : S
  pub model : S
  pub revision : S
  pub date : S
  pub time : S

-- `none` where a read goes past its field.
module _ {ℓ} {S : Type ℓ} (to_string_lossy : List ℕ → S) where
  unfoldable pub copied : Option (List ℕ) → (S → Option (Ident S)) → Option (Ident S)
  copied none next = none
  copied (some bytes) next = next (to_string_lossy bytes)

  unfoldable pub owned : IdentMessage → Option (Ident S)
  unfolding copied
  owned m = copied (cstr_from_ptr m.hostname) (λ hostname. copied (cstr_from_ptr m.model) (λ model.
      copied (cstr_from_ptr m.revision) (λ revision. copied (cstr_from_ptr m.date) (λ date.
        copied (cstr_from_ptr m.time) (λ time. some (record {
          hostname = hostname;
          model = model;
          revision = revision;
          date = date;
          time = time;
        }))))))

  unfoldable pub answer : Option (Ident S) → Option (Result (Ident S))
  answer none = none
  answer (some ident) = some (ok ident)

  -- `csp_cmp` gives its code and the message.
  unfoldable pub ident : ℤ × IdentMessage → Option (Result (Ident S))
  unfolding owned answer
  ident (ret, msg) = if ret ==ℤ pos 0 then answer (owned msg) else some (err (from_code ret))

-- The fields that `ident` copies hold a NUL each.
abbrev pub is_terminated : IdentMessage → Bool
is_terminated m =
    has_nul m.hostname
    && (has_nul m.model && (has_nul m.revision && (has_nul m.date && has_nul m.time)))

-- `ident` reads outside the message exactly when the request succeeds and some field of the reply has
-- no NUL.
pub ident-fault_iff {ℓ} :
    {S : Type ℓ} (to_string_lossy : List ℕ → S) (ret : ℤ) (msg : IdentMessage)
    → (ident to_string_lossy (ret, msg) ≡ none) ↔ ((ret ≡ pos 0) × (is_terminated msg ≡ false))
unfolding ident owned copied answer cstr_from_ptr
ident-fault_iff to_string_lossy ret msg = ground (arith, ==ℤ_iff ret (pos 0))
