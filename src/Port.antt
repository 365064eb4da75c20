-- ===== src/Port.antt =====
-- The `Port` and `Priority` enumerations of src/lib.rs.
use libcsp_rust.Base.{ℕ, ◌≤◌, ◌<◌, ◌≡◌, ◌≢◌, ◌↔◌, refl, arith, Bool, true, leb, ◌==◌, if◌then◌else◌}

pub data Port : Type 0 where
  cmp ping ps mem_free reboot buf_free uptime any : Port
  custom : ℕ → Port

-- `From<u8> for Port`
unfoldable pub from_u8 : ℕ → Port
from_u8 p =
    if p == 0
    then cmp
    else (if p == 1
        then ping
        else (if p == 2
            then ps
            else (if p == 3
                then mem_free
                else (if p == 4
                    then reboot
                    else (if p == 5
                        then buf_free
                        else (if p == 6 then uptime else (if p == 255 then any else custom p)))))))

-- `From<Port> for u8`
unfoldable pub to_u8 : Port → ℕ
to_u8 cmp = 0
to_u8 ping = 1
to_u8 ps = 2
to_u8 mem_free = 3
to_u8 reboot = 4
to_u8 buf_free = 5
to_u8 uptime = 6
to_u8 any = 255
to_u8 (custom p) = p

unfoldable pub is_service_port : Port → Bool
unfolding to_u8
is_service_port p = leb (to_u8 p) 6

-- Every byte comes back from its port, and its port is a service port exactly up to 6.
pub to_u8-from_u8 :
    (p : ℕ) → (to_u8 (from_u8 p) ≡ p) × ((is_service_port (from_u8 p) ≡ true) ↔ (p ≤ 6))
unfolding from_u8 to_u8 is_service_port
to_u8-from_u8 p = ground arith

-- The ports that `from_u8` can produce.
abbrev pub IsCanonical : Port → Type 0
IsCanonical (custom p) = (6 < p) × (p ≢ 255)
IsCanonical _ = Unit

-- A port comes back from its byte exactly when it is not a custom port with a reserved number.
pub from_u8-to_u8_iff : (q : Port) → (from_u8 (to_u8 q) ≡ q) ↔ IsCanonical q
unfolding from_u8 to_u8
from_u8-to_u8_iff cmp = (λ e. tt, λ c. refl)
from_u8-to_u8_iff (custom p) = ground arith
from_u8-to_u8_iff _ = (λ e. tt, λ c. refl)
