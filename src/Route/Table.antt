-- ===== src/Route/Table.antt =====
-- The functions of src/route.rs that pass a call on to libcsp, whose state is `L`. `iface_of` is the
-- interface behind a handle of src/can.rs.
use libcsp_rust.Base.{ℕ}
use libcsp_rust.Base.Int.{ℤ}
use libcsp_rust.Error.{Result}
use libcsp_rust.Route.{set_default}

unfoldable pub set_default_can :
    {Handle : Type 0} → (ℕ → ℕ → ℕ → ℕ → ℤ) → (Handle → ℕ) → Handle → Result (Unit {0})
unfolding set_default
set_default_can rtable_set iface_of handle = set_default rtable_set (iface_of handle)

module _ {L : Type 0} where
  unfoldable pub clear : (L → L) → L → L
  clear csp_rtable_clear l = csp_rtable_clear l

  unfoldable pub free_all : (L → L) → L → L
  free_all csp_rtable_free l = csp_rtable_free l

  unfoldable pub print : (L → L) → L → L
  print csp_rtable_print l = csp_rtable_print l
