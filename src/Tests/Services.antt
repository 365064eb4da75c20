-- ===== src/Tests/Services.antt =====
-- The sniffer and the dispatcher at concrete inputs.
use libcsp_rust.Base.{refl, none, length, Bool-cases, inl, inr, ap, arith, ◌≢◌}
use libcsp_rust.Base.Texts.{unwrap_or, is_some}
use libcsp_rust.Base.Places.{copies}
use libcsp_rust.Packet.Ownership.{Buffers}
use libcsp_rust.Connection.Lifetime.{Conns}
use libcsp_rust.Examples.ServerDispatcher
use libcsp_rust.Examples.ServerDispatcher.{logger, chain, server, served, server_lem}
use libcsp_rust.Service.{insert, bind_service}
use libcsp_rust.Service.Custody.{IsTidy, run_conns, run_conns-kept}
use libcsp_rust.Base.{ℕ, ◌+◌, ◌≡◌, ◌≤◌, ◌↔◌, List, [], ◌∷◌, true, false, some, ◌==◌, if◌then◌else◌}
use libcsp_rust.Base.Int.{pos}
use libcsp_rust.Error.{ok, err, csp_result}
use libcsp_rust.Port.{custom, to_u8}
use libcsp_rust.Promisc.{Phase, idle, Shared, Reachable, starts, goes_on, takes, step}
use libcsp_rust.Promisc.Unique.{count, is_busy, is_holding, one_sniffer}
use libcsp_rust.Socket.{SocketApi, bind, listen}
use libcsp_rust.Service
use libcsp_rust.Service.{
  Dispatcher, ServiceHandler, ServiceHandlerResult, Outcome, handled, failed, find, register,
  register_with_result, reply, report, dispatch, run,
}
use libcsp_rust.Service.Routing.{register-dispatch}

abbrev closed : Shared
closed = record { active = false; enabled = false }

-- The first of two threads has swapped the flag, and then has the handle.
abbrev won : Shared
won = (step (pos 0) closed idle).0

abbrev open_now : Shared
open_now = (step (pos 0) won (step (pos 0) closed idle).1).0

abbrev one_holds : List Phase
one_holds = (step (pos 0) won (step (pos 0) closed idle).1).1 ∷ (idle ∷ [])

one_holds-Reachable : Reachable (open_now, one_holds)
one_holds-Reachable =
    goes_on (goes_on (starts (tt ∷ (tt ∷ []))) (takes [] idle (idle ∷ []) closed (pos 0)))
      (takes [] (step (pos 0) closed idle).1 (idle ∷ []) won (pos 0))

one_sniffer_example :
    (count is_holding one_holds ≤ 1)
    × ((open_now.enabled ≡ true) ↔ (count is_holding one_holds ≡ 1))
    × ((open_now.active ≡ true) ↔ (count is_busy one_holds ≡ 1))
one_sniffer_example = one_sniffer open_now one_holds one_holds-Reachable

-- A socket that is a list of bound ports; packets, errors and the captured state are numbers.
abbrev port_list : SocketApi (List ℕ)
port_list = record {
  csp_bind = λ ports port. (pos 0, port ∷ ports);
  csp_listen = λ ports backlog. (pos 0, ports);
}

abbrev echo : ServiceHandler ℕ ℕ
echo pkt calls = (some pkt, calls + 1)

abbrev fresh : Dispatcher (List ℕ) ℕ ℕ ℕ
fresh = Service.new []

register-dispatch_example :
    (let (r, d') = register port_list fresh (custom 15) echo in
      dispatch d' 15 3 0 ≡ (elim r [
        | err e ↦ dispatch fresh 15 3 0
        | ok u ↦ if 15 == 15 then reply {F = ℕ} (echo 3 0) else dispatch fresh 15 3 0
      ]))
unfolding to_u8
register-dispatch_example = register-dispatch port_list fresh (custom 15) echo 15 3 0

-- A dispatcher that echoes port 10; what its handlers keep is a number of calls.
abbrev echo_held : ServiceHandler (Buffers × ℕ) ℕ
echo_held pkt (w, calls) = (some pkt, (w, calls + 1))

abbrev echoing : Dispatcher (List ℕ) (Buffers × ℕ) ℕ ℕ
echoing = record {
  socket = 10 ∷ [];
  handlers = (10, echo_held) ∷ [];
  result_handlers = [];
  error_callback = none;
}

no_handler : {A : Type 0} (a : A) → none ≢ some a
no_handler a e = absurd (ground (arith, ap is_some e))

echo_held-first :
    (k : ℕ) (h : ServiceHandler (Buffers × ℕ) ℕ) → find k echoing.handlers ≡ some h → echo_held ≡ h
unfolding find
echo_held-first k h e = elim (Bool-cases (10 == k)) [
  | inl f ↦ ap (λ o. unwrap_or o echo_held) (rw f at e)
  | inr f ↦ absurd (no_handler h (rw f at e))
]

echoing-IsTidy : IsTidy echoing
unfolding find
echoing-IsTidy = (
  λ k h p w u q e held. rw (← echo_held-first k h e) (omega arith),
  λ k h p w u q e held. absurd (no_handler h e),
  λ callback f s q e. absurd (no_handler callback e),
)

-- Buffers 3 and 4 and connection 1 are libcsp's, and the program holds buffer 5.
abbrev buffers : Buffers
buffers = record { free = []; owned = 5 ∷ []; inside = 3 ∷ 4 ∷ [] }

abbrev conns : Conns
conns = record { free = []; inside = 1 ∷ []; held = []; given = 0; closed = 0 }

abbrev arriving : List (ℕ × ℕ × List ℕ)
arriving = (1, 10, 3 ∷ 4 ∷ []) ∷ []

run_conns-kept_example :
    (let ((w', u'), n') = run_conns echoing arriving ((buffers, 0), conns) in
      ((q : ℕ)
        → (copies q w'.owned ≡ copies q buffers.owned) × (copies q n'.held ≡ copies q conns.held))
      × (n'.given ≡ conns.given + length arriving)
      × (n'.closed ≡ conns.closed + length arriving))
run_conns-kept_example = run_conns-kept echoing echoing-IsTidy arriving (buffers, 0) conns

-- The example's server over the list of ports
abbrev serving : Dispatcher (List ℕ) (Buffers × ℕ) ℕ ℕ
serving = record {
  socket = 11 ∷ 10 ∷ 6 ∷ 1 ∷ [];
  handlers = (10, ServerDispatcher.echo) ∷ (11, logger) ∷ [];
  result_handlers = [];
  error_callback = none;
}

server-serving : server port_list [] ≡ ok serving
unfolding server chain register bind_service insert to_u8 bind listen csp_result Service.new
server-serving = refl

server_example :
    (let ((w', u'), n') = run_conns serving arriving ((buffers, 0), conns) in
      ((dport pkt : ℕ) (w : Buffers) (u : ℕ)
        → dispatch serving dport pkt (w, u) ≡ served dport pkt (w, u))
      × ((q : ℕ)
          → (copies q w'.owned ≡ copies q buffers.owned) × (copies q n'.held ≡ copies q conns.held))
      × (n'.closed ≡ conns.closed + length arriving))
server_example = server_lem port_list [] serving server-serving arriving (buffers, 0) conns
