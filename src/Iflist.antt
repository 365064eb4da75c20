-- ===== src/Iflist.antt =====
-- src/iflist.rs: the list of interfaces is libcsp's; pointers are numbers, and reading through one
-- is a function. Names are lists of bytes.
pub mod Names
use libcsp_rust.Base.{
  ℕ, zero, suc, List, [], ◌∷◌, ◌++◌, Bool, true, false, Option, none, some, if◌then◌else◌,
}
use libcsp_rust.Base.Int.{ℤ, pos}
use libcsp_rust.CText.{cstring_new}
use libcsp_rust.Packet.{PacketId, Packet}

-- The fields of `csp_iface_t` that are read: `name` is null or a C string.
pub record Iface : Type 0 where
  pub name : Option (List ℕ)
  pub tx : ℕ
  pub rx : ℕ
  pub tx_error : ℕ
  pub rx_error : ℕ
  pub drop : ℕ
  pub txbytes : ℕ
  pub rxbytes : ℕ

-- `to_str` with the standard library's test on the bytes
unfoldable pub to_str : (List ℕ → Bool) → Option (List ℕ) → Option (List ℕ)
to_str is_utf8 none = none
to_str is_utf8 (some text) = if is_utf8 text then some text else none

unfoldable pub or_empty : Option (List ℕ) → List ℕ
or_empty none = []
or_empty (some text) = text

-- `IfaceRef::name`
unfoldable pub name : (List ℕ → Bool) → Iface → List ℕ
unfolding to_str or_empty
name is_utf8 iface = or_empty (to_str is_utf8 iface.name)

unfoldable pub pushed : List (List ℕ) → Option (List ℕ) → List (List ℕ)
pushed names none = names
pushed names (some text) = names ++ (text ∷ [])

-- `iterate` is `csp_iflist_iterate`, `iface_at` reads the interface of a pointer. `none` where the
-- fuel ends first.
module _ (is_utf8 : List ℕ → Bool) (iterate : Option ℕ → Option ℕ) (iface_at : ℕ → Iface) where
  unfoldable pub list_loop : ℕ → Option ℕ → List (List ℕ) → Option (List (List ℕ))
  unfolding to_str pushed
  list_loop zero cur names = none
  list_loop (suc fuel) cur names = elim (iterate cur) [
    | none ↦ some names
    | some p ↦ list_loop fuel (some p) (pushed names (to_str is_utf8 (iface_at p).name))
  ]

  unfoldable pub list_names : ℕ → Option (List (List ℕ))
  unfolding list_loop
  list_names fuel = list_loop fuel none []

-- `get_by_name` is `csp_iflist_get_by_name`, which gives a pointer or null.
unfoldable pub found : (List ℕ → Option ℕ) → Option (List ℕ) → Option ℕ
found get_by_name none = none
found get_by_name (some c_name) = get_by_name c_name

unfoldable pub lookup : (List ℕ → Option ℕ) → List ℕ → Option ℕ
unfolding found
lookup get_by_name text = found get_by_name (cstring_new text)

pub record IfaceStats : Type 0 where
  pub tx : ℕ
  pub rx : ℕ
  pub tx_error : ℕ
  pub rx_error : ℕ
  pub drop : ℕ
  pub txbytes : ℕ
  pub rxbytes : ℕ

unfoldable pub stats : Iface → IfaceStats
stats r = record {
  tx = r.tx;
  rx = r.rx;
  tx_error = r.tx_error;
  rx_error = r.rx_error;
  drop = r.drop;
  txbytes = r.txbytes;
  rxbytes = r.rxbytes;
}

-- The arguments of `csp_send_direct_iface`.
pub record SendDirect : Type 0 where
  pub idout : PacketId
  pub packet : Packet
  pub iface : ℕ
  pub via : ℕ
  pub from_me : ℤ

unfoldable pub send_via : Packet → ℕ → ℕ → Bool → SendDirect
send_via packet iface via from_me = record {
  idout = packet.id;
  packet = packet;
  iface = iface;
  via = via;
  from_me = if from_me then pos 1 else pos 0;
}
