-- ===== src/Packet/Ownership.antt =====
-- src/packet.rs: who holds each buffer of libcsp's pool. Buffers are numbers. The calls that hand a
-- packet over or get one stand in src/connection.rs, src/init.rs, src/interface.rs, src/iflist.rs, src/socket.rs and
-- src/promisc.rs.
pub mod Exclusive
use libcsp_rust.Base.{
  ℕ, ◌+◌, List, [], ◌∷◌, Bool, true, false, ◌||◌, Option, none, some, ◌==◌, if◌then◌else◌, ◌≡◌,
}
use libcsp_rust.Base.Places.{has, remove}

-- The buffers in the pool, those of the `Packet` values, and those inside libcsp.
pub record Buffers : Type 0 where
  pub free : List ℕ
  pub owned : List ℕ
  pub inside : List ℕ

-- What libcsp documents: `csp_buffer_get`, `csp_buffer_free`, and a call that takes a buffer or gives
-- one away.
abbrev pub csp_buffer_get : Buffers → Option ℕ × Buffers
csp_buffer_get w = elim w.free [ [] ↦ (none, w) | p ∷ rest ↦ (some p, record w { free = rest }) ]

abbrev pub csp_buffer_free : ℕ → Buffers → Buffers
csp_buffer_free p w = record w { free = p ∷ w.free }

abbrev pub csp_takes : ℕ → Buffers → Buffers
csp_takes p w = record w { inside = p ∷ w.inside }

abbrev pub csp_gives : ℕ → Buffers → Buffers
csp_gives p w = record w { inside = remove p w.inside }

-- A `Packet` for the pointer.
unfoldable pub from_raw : ℕ → Buffers → Buffers
from_raw p w = record w { owned = p ∷ w.owned }

-- `forget`: the value ends without its `drop`.
unfoldable pub into_raw : ℕ → Buffers → ℕ × Buffers
into_raw p w = (p, record w { owned = remove p w.owned })

-- The value ends with its `drop`.
unfoldable pub drop : ℕ → Buffers → Buffers
drop p w = csp_buffer_free p (record w { owned = remove p w.owned })

unfoldable pub got : Option ℕ × Buffers → Option ℕ × Buffers
unfolding from_raw
got (none, w) = (none, w)
got (some p, w) = (some p, from_raw p w)

-- `Packet::get`
unfoldable pub get : Buffers → Option ℕ × Buffers
unfolding got
get w = got (csp_buffer_get w)

-- `Connection::send` and `send_prio`
unfoldable pub send : ℕ → Buffers → Buffers
unfolding into_raw
send p w = let (raw, w') = into_raw p w in csp_takes raw w'

-- `Connection::handle_service`
unfoldable pub handle_service : ℕ → Buffers → Buffers
unfolding into_raw
handle_service p w = let (raw, w') = into_raw p w in csp_takes raw w'

-- `CspNode::sendto`
unfoldable pub sendto : ℕ → Buffers → Buffers
unfolding into_raw
sendto p w = let (raw, w') = into_raw p w in csp_takes raw w'

-- `InterfaceHandle::rx`
unfoldable pub rx : ℕ → Buffers → Buffers
unfolding into_raw
rx p w = let (raw, w') = into_raw p w in csp_takes raw w'

-- `send_via` of src/iflist.rs
unfoldable pub send_direct : ℕ → Buffers → Buffers
unfolding into_raw
send_direct p w = let (raw, w') = into_raw p w in csp_takes raw w'

-- The packet of `nexthop_shim`, which libcsp gives to the interface
unfoldable pub sent_over : ℕ → Buffers → Buffers
unfolding from_raw
sent_over p w = from_raw p (csp_gives p w)

-- `Connection::read`, from the pointer that libcsp gives or null
unfoldable pub read : Option ℕ → Buffers → Option ℕ × Buffers
unfolding from_raw
read none w = (none, w)
read (some p) w = (some p, from_raw p (csp_gives p w))

-- `Socket::recvfrom`
unfoldable pub recvfrom : Option ℕ → Buffers → Option ℕ × Buffers
unfolding from_raw
recvfrom none w = (none, w)
recvfrom (some p) w = (some p, from_raw p (csp_gives p w))

-- `Sniffer::read`
unfoldable pub sniff : Option ℕ → Buffers → Option ℕ × Buffers
unfolding from_raw
sniff none w = (none, w)
sniff (some p) w = (some p, from_raw p (csp_gives p w))

-- Safe code drops or hands over only a value that it has; libcsp frees or gives only what it holds.
pub data Step : Buffers → Buffers → Type 0 where
  gets : (w : Buffers) → Step w (get w).1
  drops : (p : ℕ) (w : Buffers) → has p w.owned ≡ true → Step w (drop p w)
  sends : (p : ℕ) (w : Buffers) → has p w.owned ≡ true → Step w (send p w)
  handles : (p : ℕ) (w : Buffers) → has p w.owned ≡ true → Step w (handle_service p w)
  sends_to : (p : ℕ) (w : Buffers) → has p w.owned ≡ true → Step w (sendto p w)
  hands_on : (p : ℕ) (w : Buffers) → has p w.owned ≡ true → Step w (rx p w)
  sends_direct : (p : ℕ) (w : Buffers) → has p w.owned ≡ true → Step w (send_direct p w)
  sends_over : (p : ℕ) (w : Buffers) → has p w.inside ≡ true → Step w (sent_over p w)
  reads : (p : ℕ) (w : Buffers) → has p w.inside ≡ true → Step w (read (some p) w).1
  receives : (p : ℕ) (w : Buffers) → has p w.inside ≡ true → Step w (recvfrom (some p) w).1
  sniffs : (p : ℕ) (w : Buffers) → has p w.inside ≡ true → Step w (sniff (some p) w).1
  csp_frees :
      (p : ℕ) (w : Buffers) → has p w.inside ≡ true → Step w (csp_buffer_free p (csp_gives p w))
  csp_allocates :
      (p : ℕ) (w w' : Buffers) → csp_buffer_get w ≡ (some p, w') → Step w (csp_takes p w')

pub data Reachable (pool : List ℕ) : Buffers → Type 0 where
  starts : Reachable pool (record { free = pool; owned = []; inside = [] })
  goes_on : {w w' : Buffers} → Reachable pool w → Step w w' → Reachable pool w'
