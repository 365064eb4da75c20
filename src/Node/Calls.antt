-- ===== src/Node/Calls.antt =====
-- The methods of `CspNode` (src/init.rs) that only pass a call on: to libcsp, whose state is `L`, or to
-- src/route.rs.
use libcsp_rust.Base.{ℕ}
use libcsp_rust.Base.Int.{ℤ}
use libcsp_rust.Error.{Result}
use libcsp_rust.Route.{set_raw}

module _ {L : Type 0} where
  unfoldable pub ping_noreply : (ℕ → L → L) → ℕ → L → L
  ping_noreply csp_ping_noreply node l = csp_ping_noreply node l

  unfoldable pub ps : (ℕ → ℕ → L → L) → ℕ → ℕ → L → L
  ps csp_ps node timeout l = csp_ps node timeout l

  unfoldable pub reboot : (ℕ → L → L) → ℕ → L → L
  reboot csp_reboot node l = csp_reboot node l

  unfoldable pub shutdown : (ℕ → L → L) → ℕ → L → L
  shutdown csp_shutdown node l = csp_shutdown node l

unfoldable pub route_set_raw : (ℕ → ℕ → ℕ → ℕ → ℤ) → ℕ → ℕ → ℕ → ℕ → Result (Unit {0})
unfolding set_raw
route_set_raw rtable_set dest mask iface via = set_raw rtable_set dest mask iface via
