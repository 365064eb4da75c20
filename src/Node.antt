-- ===== src/Node.antt =====
-- src/init.rs: the configuration, the initialisation of the runtime and the results of the requests.
-- What the initialisation does to libcsp is a list of effects. Texts are lists of bytes.
pub mod Once
pub mod Options
pub mod Calls
use libcsp_rust.Base.{
  ℕ, ◌-◌, ◌^◌, List, [], ◌∷◌, ◌++◌, Bool, true, false, not, ltb, ◌&&◌, ◌||◌, Option, none, some,
  ◌==◌, if◌then◌else◌,
}
use libcsp_rust.Base.Int.{ℤ, pos, negsuc, ◌==ℤ◌}
use libcsp_rust.CText.{cstring_new}
use libcsp_rust.Error.{
  CspError, driver_error, not_supported, already_initialized, transmit_failed, invalid_argument,
  from_code, Result, ok, err, csp_result,
}
use libcsp_rust.Packet.{Checked, value, panic}

pub data DedupMode : Type 0 where
  off forward incoming all : DedupMode

-- The numbers of `csp_dedup_types`, in the order of the variants.
abbrev pub dedup_code : DedupMode → ℕ
dedup_code off = 0
dedup_code forward = 1
dedup_code incoming = 2
dedup_code all = 3

pub record CspConfig : Type 0 where
  pub version : ℕ
  pub address : ℕ
  pub hostname : List ℕ
  pub model : List ℕ
  pub revision : List ℕ
  pub conn_dfl_so : ℕ
  pub dedup : ℕ

-- "hostname", "model" and "1.0"
unfoldable pub default : CspConfig
default = record {
  version = 1;
  address = 1;
  hostname = 104 ∷ 111 ∷ 115 ∷ 116 ∷ 110 ∷ 97 ∷ 109 ∷ 101 ∷ [];
  model = 109 ∷ 111 ∷ 100 ∷ 101 ∷ 108 ∷ [];
  revision = 49 ∷ 46 ∷ 48 ∷ [];
  conn_dfl_so = 0;
  dedup = 0;
}

-- `debug` is whether debug assertions are compiled in.
unfoldable pub version : Bool → CspConfig → ℕ → Checked CspConfig
version debug c v =
    if debug && not (v == 1 || v == 2) then panic else value (record c { version = v })

unfoldable pub address : CspConfig → ℕ → CspConfig
address c addr = record c { address = addr }

-- `expect` on `CString::new`
unfoldable pub expect : Option (List ℕ) → (List ℕ → CspConfig) → Checked CspConfig
expect none set = panic
expect (some text) set = value (set text)

unfoldable pub hostname : CspConfig → List ℕ → Checked CspConfig
unfolding expect cstring_new
hostname c name = expect (cstring_new name) (λ text. record c { hostname = text })

unfoldable pub model : CspConfig → List ℕ → Checked CspConfig
unfolding expect cstring_new
model c name = expect (cstring_new name) (λ text. record c { model = text })

unfoldable pub revision : CspConfig → List ℕ → Checked CspConfig
unfolding expect cstring_new
revision c rev = expect (cstring_new rev) (λ text. record c { revision = text })

unfoldable pub dedup : CspConfig → DedupMode → CspConfig
dedup c mode = record c { dedup = dedup_code mode }

unfoldable pub default_socket_opts : CspConfig → ℕ → CspConfig
default_socket_opts c opts = record c { conn_dfl_so = opts }

-- A call of libcsp, or a write to one of its globals.
pub data Effect : Type 0 where
  set_conf : CspConfig → Effect
  csp_init : Effect
  iflist_add_self : ℕ → ℕ → Effect
  set_loop : ℕ → ℕ → Effect
  rtable_set_self : ℕ → ℤ → Effect

abbrev pub loopback_sentinel : ℕ
loopback_sentinel = 2 ^ 16 - 1

-- `INITIALIZED`, `NODE_ADDRESS` and what was done to libcsp, the latest last.
pub record Runtime : Type 0 where
  pub initialized : Bool
  pub node_address : ℕ
  pub effects : List Effect

-- `found` is whether libcsp has an interface LOOP after `csp_init`.
unfoldable pub setup : Bool → CspConfig → List Effect
setup found c =
    (set_conf c ∷ csp_init ∷ iflist_add_self c.address 0 ∷ [])
    ++ (if found then set_loop loopback_sentinel 0 ∷ [] else [])
    ++ (rtable_set_self c.address (negsuc 0) ∷ [])

unfoldable pub init : Bool → Runtime → CspConfig → Result (Unit {0}) × Runtime
unfolding setup
init found r c = if r.initialized then (err already_initialized, r) else (
  ok tt,
  record { initialized = true; node_address = c.address; effects = r.effects ++ setup found c },
)

-- `CspNode::address`
unfoldable pub node_address : Runtime → ℕ
node_address r = r.node_address

-- `CspNode::memfree`, `uptime` and `buf_free`: the code that libcsp returns and what it stored.
unfoldable pub asked : Result (Unit {0}) → ℕ → Result ℕ
asked (ok u) n = ok n
asked (err e) n = err e

unfoldable pub memfree : ℤ → ℕ → Result ℕ
unfolding asked
memfree ret size = asked (csp_result ret) size

unfoldable pub uptime : ℤ → ℕ → Result ℕ
unfolding asked
uptime ret secs = asked (csp_result ret) secs

unfoldable pub buf_free : ℤ → ℕ → Result ℕ
unfolding asked
buf_free ret n = asked (csp_result ret) n

-- `CspNode::route_work`
unfoldable pub route_work : ℤ → Result (Unit {0})
route_work ret = csp_result ret

-- `n` where it is positive, or the error
unfoldable pub counted : ℤ → Result ℕ
counted (pos n) = if ltb 0 n then ok n else err transmit_failed
counted (negsuc n) = err transmit_failed

-- `CspNode::route_start_task`: whether a thread can be had, and whether it starts.
unfoldable pub route_start_task : Bool → Bool → Result (Unit {0})
route_start_task hosted spawned =
    if hosted then (if spawned then ok tt else err driver_error) else err not_supported

-- `CspNode::add_interface_socketcan`: `open` gives the code and the interface for a name.
unfoldable pub opened : {A : Type 0} → Result (Unit {0}) → A → Result A
opened (ok u) iface = ok iface
opened (err e) iface = err e

unfoldable pub open_named : {A : Type 0} → (List ℕ → ℤ × A) → Option (List ℕ) → Result A
unfolding opened
open_named open_device none = err invalid_argument
open_named open_device (some device) =
    let (ret, iface) = open_device device in opened (csp_result ret) iface

unfoldable pub add_interface_socketcan : {A : Type 0} → (List ℕ → ℤ × A) → List ℕ → Result A
unfolding open_named cstring_new
add_interface_socketcan open_device device = open_named open_device (cstring_new device)

-- `CspNode::transaction`: `match (ret, in_len)`
unfoldable pub transaction : ℤ → ℤ → Result ℕ
unfolding counted
transaction ret in_len =
    if (ret ==ℤ pos 1 || ret ==ℤ pos 0) && in_len ==ℤ pos 0 then ok 0 else counted ret
