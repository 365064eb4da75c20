-- ===== src/Can/Interface.antt =====
-- src/can.rs: a CAN interface, its registration, the frames that it receives and the callback
-- through which libcsp transmits. A null pointer is `none`; a driver is of any type.
use libcsp_rust.Base.{
  ℕ, List, Bool, true, false, Option, none, some, ◌≡◌, ◌↔◌, arith, if◌then◌else◌, take,
}
use libcsp_rust.Base.Int.{ℤ, pos, negsuc, ◌==ℤ◌, ==ℤ_iff}
use libcsp_rust.CText.{has_nul, cstring_new}
use libcsp_rust.Error.{invalid_argument, driver_error, Result, ok, err}
use libcsp_rust.Ffi.{guard}
use libcsp_rust.Packet.{Checked, value, panic}

-- What `transmit` does to the driver: whether the result is `Ok`, or a panic.
abbrev pub Transmit : Type 0 → Type 0
Transmit D = D → ℕ → List ℕ → ℕ → Checked Bool × D

-- `rc` starts as -1; `panic` where the process ends.
unfoldable pub tx_code : {D : Type 0} → Checked (Option Bool) → D → Checked (ℤ × Option D)
tx_code (value (some sent)) d = value (if sent then pos 0 else negsuc 0, some d)
tx_code (value none) d = value (negsuc 0, some d)
tx_code panic d = panic

module _ {D : Type 0} (std : Bool) (transmit : Transmit D) where
  -- `bytes` is the memory from the pointer on.
  unfoldable pub can_tx_trampoline : Option D → ℕ → Option (List ℕ) → ℕ → Checked (ℤ × Option D)
  unfolding tx_code
  can_tx_trampoline none id bytes dlc = value (negsuc 0, none)
  can_tx_trampoline (some driver) id none dlc = value (negsuc 0, some driver)
  can_tx_trampoline (some driver) id (some bytes) dlc =
      let (outcome, driver') = transmit driver id (take dlc bytes) dlc in
      tx_code (guard std outcome) driver'

-- The interface that libcsp gets, and that the handle stands for.
pub record CanInterface (D : Type 0) : Type 0 where
  pub name : List ℕ
  pub address : ℕ
  pub driver : D

-- `csp_can_add_interface` as its code.
unfoldable pub added :
    {D : Type 0} → (CanInterface D → ℤ) → ℕ → D → Option (List ℕ) → Result (CanInterface D)
added can_add_interface addr driver none = err invalid_argument
added {D} can_add_interface addr driver (some c_name) =
    let inner : CanInterface D = record { name = c_name; address = addr; driver = driver } in
    if can_add_interface inner ==ℤ pos 0 then ok inner else err driver_error

unfoldable pub add_interface :
    {D : Type 0} → (CanInterface D → ℤ) → List ℕ → ℕ → D → Result (CanInterface D)
unfolding added cstring_new
add_interface can_add_interface name addr driver =
    added can_add_interface addr driver (cstring_new name)

-- The arguments of `csp_can_rx`, besides the interface and the null pointer at the end.
pub record CanRx : Type 0 where
  pub id : ℕ
  pub bytes : List ℕ
  pub dlc : ℕ
  pub timestamp : ℕ

unfoldable pub feed_rx_ts : ℕ → List ℕ → ℕ → ℕ → CanRx
feed_rx_ts id bytes dlc timestamp = record {
  id = id;
  bytes = bytes;
  dlc = dlc;
  timestamp = timestamp;
}

unfoldable pub feed_rx : ℕ → List ℕ → ℕ → CanRx
unfolding feed_rx_ts
feed_rx id bytes dlc = feed_rx_ts id bytes dlc 0

-- `CanInterfaceHandle::addr`
unfoldable pub addr : {D : Type 0} → CanInterface D → ℕ
addr inner = inner.address

tx_code-ok_iff :
    {D : Type 0} (outcome : Checked Bool) (d : D) (after : Option D)
    → (tx_code (guard true outcome) d ≡ value (pos 0, after))
      ↔ ((outcome ≡ value true) × (after ≡ some d))
unfolding tx_code guard
tx_code-ok_iff (value true) d after = ground arith
tx_code-ok_iff (value false) d after = ground arith
tx_code-ok_iff panic d after = ground arith

-- Where panics are caught, libcsp reads 0 exactly when neither pointer is null and the driver
-- transmits the first `dlc` bytes without an error or a panic; then the driver is as it leaves it.
pub can_tx_trampoline-ok_iff :
    {D : Type 0} (transmit : Transmit D) (driver : Option D) (id : ℕ) (bytes : Option (List ℕ))
    (dlc : ℕ) (after : Option D)
    → (can_tx_trampoline true transmit driver id bytes dlc ≡ value (pos 0, after)) ↔ (
        (d : D) × (text : List ℕ) × (driver ≡ some d)
        × (bytes ≡ some text)
        × ((transmit d id (take dlc text) dlc).0 ≡ value true)
        × (after ≡ some (transmit d id (take dlc text) dlc).1))
unfolding can_tx_trampoline tx_code guard
can_tx_trampoline-ok_iff transmit none id bytes dlc after = ground arith
can_tx_trampoline-ok_iff transmit (some d) id none dlc after = ground arith
can_tx_trampoline-ok_iff transmit (some d) id (some text) dlc after = ground (
  arith,
  tx_code-ok_iff (transmit d id (take dlc text) dlc).0 (transmit d id (take dlc text) dlc).1 after,
)

-- A registration succeeds exactly when the name holds no NUL and libcsp's code for the interface is
-- 0; the handle then has the address and the name that were given.
pub add_interface-ok_iff :
    {D : Type 0} (can_add_interface : CanInterface D → ℤ) (name : List ℕ) (address : ℕ) (driver : D)
    (handle : CanInterface D)
    → (add_interface can_add_interface name address driver ≡ ok handle) ↔ (
        (has_nul name ≡ false)
        × (can_add_interface handle ≡ pos 0)
        × (handle ≡ record { name = name; address = address; driver = driver }))
unfolding add_interface added cstring_new
add_interface-ok_iff can_add_interface name address driver handle =
    ground (arith, ==ℤ_iff (can_add_interface handle) (pos 0))
