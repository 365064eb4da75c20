-- ===== src/Connection/Sfp/Plain.antt =====
-- `sfp_send` and `sfp_recv` of src/connection.rs: the transfers whose closures never abort.
use libcsp_rust.Base.{ℕ, ◌^◌, ◌≡◌, ◌≤◌, ◌<◌, List, Bool, true, Option, none, some, length, ap, refl}
use libcsp_rust.Error.{Result, ok}
use libcsp_rust.Connection.Sfp.Calls.{Request, Fragment, Tiles}
use libcsp_rust.Connection.Sfp.Send.{sfp_send_with_progress}
use libcsp_rust.Connection.Sfp.Receive.{sfp_recv_with_progress}
use libcsp_rust.Connection.Sfp.RoundTrip.{sfp_recv-sfp_send}

-- `|_, _| true` and `|_, _, _| true`
abbrev go_on_sending : Unit {0} → ℕ → ℕ → Bool × Unit {0}
go_on_sending s sent total = (true, s)

abbrev go_on_receiving : Unit {0} → ℕ → ℕ → List ℕ → Bool × Unit {0}
go_on_receiving s received total prefix = (true, s)

abbrev without_state :
    Option (Result (Unit {0}) × List Fragment × Unit {0})
    → Option (Result (Unit {0}) × List Fragment)
without_state none = none
without_state (some (r, frags, s)) = some (r, frags)

unfoldable pub sfp_send : List ℕ → List Request → Option (Result (Unit {0}) × List Fragment)
sfp_send bytes reqs = without_state (sfp_send_with_progress go_on_sending bytes reqs tt)

unfoldable pub sfp_recv : ℕ → ℕ → List Fragment → Result (List ℕ)
sfp_recv usize_max totalsz frags =
    (sfp_recv_with_progress usize_max go_on_receiving totalsz frags tt).0

-- A blob shorter than 2 ^ 32 that fits a usize is sent by calls that ask for it in order and without a
-- gap, and received as it is.
pub sfp_recv-sfp_send_plain :
    (usize_max : ℕ) (blob : List ℕ) (reqs : List Request)
    → length blob < 2 ^ 32
    → length blob ≤ usize_max
    → Tiles 0 reqs (length blob)
    → (frags : List Fragment) × (sfp_send blob reqs ≡ some (ok tt, frags))
      × (sfp_recv usize_max (length blob) frags ≡ ok blob)
unfolding sfp_send sfp_recv
sfp_recv-sfp_send_plain usize_max blob reqs h u tiles =
    let (frags, s, sent, received) =
      sfp_recv-sfp_send usize_max go_on_sending go_on_receiving (λ s n total. refl)
        (λ s n total prefix. refl) blob reqs tt tt h u tiles in
    (frags, ap without_state sent, received)
