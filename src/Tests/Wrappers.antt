-- ===== src/Tests/Wrappers.antt =====
-- The routing table, the interface list and an interface at concrete inputs.
use libcsp_rust.Base.{
  ℕ, [], ◌∷◌, ◌++◌, Bool, true, Option, none, some, ◌==◌, if◌then◌else◌, ◌≡◌, ◌≢◌, refl, arith,
}
use libcsp_rust.Packet.{Checked, value, panic}
use libcsp_rust.Route.{RouteEntry}
use libcsp_rust.Route.Iterate.{iterate, walk, noting, iterate-stops}
use libcsp_rust.Iflist.{Iface, list_names}
use libcsp_rust.Iflist.Names.{valid_names, list_names-valid}

abbrev entry : ℕ → RouteEntry
entry n = record { address = n; netmask = 5; via = 65535; iface = 1 }

-- Panics at address 2.
abbrev wary : RouteEntry → Checked Bool
wary route = if route.address == 2 then panic else value true

not_value : wary (entry 2) ≢ value true
not_value e = absurd (ground arith)

iterate-stops_example :
    iterate true (λ call s. walk call ((entry 1 ∷ []) ++ entry 2 ∷ entry 3 ∷ []) s) (noting wary) []
    ≡ value (entry 1 ∷ entry 2 ∷ [])
iterate-stops_example =
    iterate-stops wary (λ call s. walk call ((entry 1 ∷ []) ++ entry 2 ∷ entry 3 ∷ []) s) []
      (entry 1 ∷ []) (entry 3 ∷ []) (entry 2) (λ call s. refl) (refl, tt) not_value

-- Interfaces 1, without a name, and 2.
abbrev after : Option ℕ → Option ℕ
after none = some 1
after (some p) = if p == 1 then some 2 else none

abbrev iface_at : ℕ → Iface
iface_at p = record {
  name = if p == 2 then some (67 ∷ []) else none;
  tx = 0;
  rx = 0;
  tx_error = 0;
  rx_error = 0;
  drop = 0;
  txbytes = 0;
  rxbytes = 0;
}

list_names-valid_example :
    list_names (λ bytes. true) after iface_at 3
    ≡ some (valid_names (λ bytes. true) iface_at (1 ∷ 2 ∷ []))
list_names-valid_example =
    list_names-valid (λ bytes. true) after iface_at 3 (1 ∷ 2 ∷ []) (refl, (refl, refl))
      (omega arith)
