-- ===== src/Interface.antt =====
-- src/interface.rs: a custom interface, its registration and the shim through which libcsp sends
-- over it. A null pointer is `none`; an interface, a packet and libcsp's list are of any type.
use libcsp_rust.Base.{ℕ, List, Bool, true, not, Option, none, some, ◌≡◌, ◌↔◌, ◌⊎◌, refl, arith}
use libcsp_rust.Base.Int.{ℤ, pos, negsuc, ◌==ℤ◌}
use libcsp_rust.CText.{cstring_new}
use libcsp_rust.Ffi.{guard}
use libcsp_rust.Packet.{Checked, value, panic}

-- `CSP_ERR_INVAL`
abbrev pub csp_err_inval : ℤ
csp_err_inval = negsuc 1

-- What `nexthop` does to the interface that it is called on, or a panic after that.
abbrev pub Nexthop : (S P : Type 0) → Type 0
Nexthop S P = S → ℕ → P → Bool → Checked (Unit {0}) × S

-- What libcsp gets of a callback, and the state that is left; `panic` where the process ends.
unfoldable pub returned :
    {S : Type 0} → ℤ → Checked (Option (Unit {0})) → S → Checked (ℤ × Option S)
returned code (value outcome) s = value (code, some s)
returned code panic s = panic

module _ {S P : Type 0} (std : Bool) (nexthop : Nexthop S P) where
  unfoldable pub nexthop_shim : Option S → ℕ → Option P → ℤ → Checked (ℤ × Option S)
  unfolding returned
  nexthop_shim none via packet from_me = value (csp_err_inval, none)
  nexthop_shim (some state) via none from_me = value (csp_err_inval, some state)
  nexthop_shim (some state) via (some packet) from_me =
      let (outcome, state') = nexthop state via packet (not (from_me ==ℤ pos 0)) in
      returned (pos 0) (guard std outcome) state'

-- What `register` hands to libcsp: the name, and the state that its callback gets.
pub record Registration (S : Type 0) : Type 0 where
  pub name : List ℕ
  pub state : S

-- `unwrap` on `CString::new`
unfoldable pub registered :
    {S L : Type 0} → (Registration S → L → L) → S → L → Option (List ℕ) → Checked L
registered iflist_add interface list none = panic
registered iflist_add interface list (some c_name) =
    value (iflist_add (record { name = c_name; state = interface }) list)

unfoldable pub register :
    {S L : Type 0} → (S → List ℕ) → (Registration S → L → L) → S → L → Checked L
unfolding registered cstring_new
register name iflist_add interface list =
    registered iflist_add interface list (cstring_new (name interface))

returned-guard :
    {S : Type 0} (code : ℤ) (outcome : Checked (Unit {0})) (s : S)
    → returned code (guard true outcome) s ≡ value (code, some s)
unfolding returned guard
returned-guard code (value u) s = refl
returned-guard code panic s = refl

-- Whether `nexthop` panics or not, where panics are caught libcsp gets a code: 0 exactly when
-- neither pointer is null, and then the interface is as `nexthop` leaves it, and `CSP_ERR_INVAL`
-- exactly when one is null, and then the interface is as it was.
pub nexthop_shim-code_iff :
    {S P : Type 0} (nexthop : Nexthop S P) (state : Option S) (via : ℕ) (packet : Option P)
    (from_me : ℤ) (after : Option S)
    → ((nexthop_shim true nexthop state via packet from_me ≡ value (pos 0, after)) ↔ (
        (s : S) × (p : P) × (state ≡ some s)
        × (packet ≡ some p)
        × (after ≡ some (nexthop s via p (not (from_me ==ℤ pos 0))).1)))
      × ((nexthop_shim true nexthop state via packet from_me ≡ value (csp_err_inval, after))
          ↔ (((state ≡ none) ⊎ (packet ≡ none)) × (after ≡ state)))
unfolding nexthop_shim
nexthop_shim-code_iff nexthop none via packet from_me after = ground arith
nexthop_shim-code_iff nexthop (some s) via none from_me after = ground arith
nexthop_shim-code_iff nexthop (some s) via (some p) from_me after = ground (
  arith,
  returned-guard (pos 0) (nexthop s via p (not (from_me ==ℤ pos 0))).0
      (nexthop s via p (not (from_me ==ℤ pos 0))).1,
)
