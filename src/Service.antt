-- ===== src/Service.antt =====
-- src/service.rs: the dispatcher. `E` is what the handlers capture, `P` a packet, `F` an error that a
-- handler returns; the calls of the C socket are parameters. A run is the connections accepted, each
-- with its destination port and the packets read from it.
pub mod Routing
pub mod Custody
use libcsp_rust.Base.{
  ℕ, List, [], ◌∷◌, ◌++◌, Bool, true, false, Option, none, some, ◌==◌, if◌then◌else◌, length,
}
use libcsp_rust.Base.Int.{ℤ}
use libcsp_rust.Error.{CspError, Result, ok, err}
use libcsp_rust.Socket.{SocketApi, bind}
use libcsp_rust.Port.{Port, from_u8, to_u8, is_service_port}

-- What becomes of a packet: a reply sent, none, an error given to the callback or to nobody, the
-- packet handed to libcsp's handler, the packet dropped.
pub data Effect (P F : Type 0) : Type 0 where
  replied : P → Effect P F
  no_reply : Effect P F
  reported : F → Effect P F
  unreported : F → Effect P F
  serviced : P → Effect P F
  dropped : P → Effect P F

abbrev pub ServiceHandler : Type 0 → Type 0 → Type 0
ServiceHandler E P = P → E → Option P × E

-- What a handler that can fail returns.
pub data Outcome (P F : Type 0) : Type 0 where
  handled : Option P → Outcome P F
  failed : F → Outcome P F

abbrev pub ServiceHandlerResult : Type 0 → Type 0 → Type 0 → Type 0
ServiceHandlerResult E P F = P → E → Outcome P F × E

-- The maps from ports: `insert` replaces, as a `BTreeMap` does.
module _ {A : Type 0} where
  unfoldable pub insert : ℕ → A → List (ℕ × A) → List (ℕ × A)
  insert k v [] = (k, v) ∷ []
  insert k v ((k', v') ∷ m) = if k' == k then (k, v) ∷ m else (k', v') ∷ insert k v m

  unfoldable pub find : ℕ → List (ℕ × A) → Option A
  find k [] = none
  find k ((k', v') ∷ m) = if k' == k then some v' else find k m

pub record Dispatcher (Socket E P F : Type 0) : Type 0 where
  pub socket : Socket
  pub handlers : List (ℕ × ServiceHandler E P)
  pub result_handlers : List (ℕ × ServiceHandlerResult E P F)
  pub error_callback : Option (F → E → E)

module _ {E P F : Type 0} where
  unfoldable pub reply : Option P × E → Effect P F × E
  reply (none, s) = (no_reply, s)
  reply (some p, s) = (replied p, s)

  unfoldable pub report : Option (F → E → E) → Outcome P F × E → Effect P F × E
  report callback (handled none, s) = (no_reply, s)
  report callback (handled (some p), s) = (replied p, s)
  report none (failed f, s) = (unreported f, s)
  report (some callback) (failed f, s) = (reported f, callback f s)

module _ {Socket E P F : Type 0} where
  unfoldable pub new : Socket → Dispatcher Socket E P F
  new socket = record {
    socket = socket;
    handlers = [];
    result_handlers = [];
    error_callback = none;
  }

  unfoldable pub on_error : Dispatcher Socket E P F → (F → E → E) → Dispatcher Socket E P F
  on_error d callback = record d { error_callback = some callback }

  unfoldable pub register :
      SocketApi Socket
      → Dispatcher Socket E P F
      → Port
      → ServiceHandler E P
      → Result (Unit {0}) × Dispatcher Socket E P F
  register api d port handler =
      let (bound, socket) = bind api d.socket (to_u8 port) in
      elim bound [
        | err e ↦ (err e, record d { socket = socket })
        | ok u ↦
            (ok u, record d { socket = socket; handlers = insert (to_u8 port) handler d.handlers })
      ]

  unfoldable pub register_with_result :
      SocketApi Socket
      → Dispatcher Socket E P F
      → Port
      → ServiceHandlerResult E P F
      → Result (Unit {0}) × Dispatcher Socket E P F
  register_with_result api d port handler =
      let (bound, socket) = bind api d.socket (to_u8 port) in
      elim bound [
        | err e ↦ (err e, record d { socket = socket })
        | ok u ↦ (
          ok u,
          record d {
            socket = socket;
            result_handlers = insert (to_u8 port) handler d.result_handlers;
          },
        )
      ]

  unfoldable pub bind_service :
      SocketApi Socket
      → Dispatcher Socket E P F
      → Port
      → Result (Unit {0}) × Dispatcher Socket E P F
  bind_service api d port =
      let (bound, socket) = bind api d.socket (to_u8 port) in (bound, record d { socket = socket })

  -- The body of the inner loop of `run`.
  unfoldable pub dispatch : Dispatcher Socket E P F → ℕ → P → E → Effect P F × E
  dispatch d dport pkt s = elim (find dport d.handlers) [
    | some handler ↦ reply (handler pkt s)
    | none ↦ elim (find dport d.result_handlers) [
      | some handler ↦ report d.error_callback (handler pkt s)
      | none ↦ if is_service_port (from_u8 dport) then (serviced pkt, s) else (dropped pkt, s)
    ]
  ]

  unfoldable pub read_all : Dispatcher Socket E P F → ℕ → List P → E → List (Effect P F) × E
  read_all d dport [] s = ([], s)
  read_all d dport (pkt ∷ pkts) s =
      let (effect, s') = dispatch d dport pkt s in
      let (effects, s'') = read_all d dport pkts s' in (effect ∷ effects, s'')

  unfoldable pub run : Dispatcher Socket E P F → List (ℕ × List P) → E → List (Effect P F) × E
  run d [] s = ([], s)
  run d ((dport, pkts) ∷ conns) s =
      let (effects, s') = read_all d dport pkts s in
      let (rest, s'') = run d conns s' in (effects ++ rest, s'')
