-- ===== src/Examples/ServerDispatcher.antt =====
-- examples/server_dispatcher.rs: a dispatcher with the services ping and uptime, an echo on port 10 and a
-- logger on port 11. What the handlers print is left out; `U` is anything else that goes along.
use libcsp_rust.Base.{
  ℕ, ◌+◌, ◌≡◌, ◌≢◌, List, [], ◌∷◌, true, none, some, ◌==◌, if◌then◌else◌, length, arith, refl, ap,
  ◌∙◌, ◌⊎◌, inl, inr, Bool-cases, leb,
}
use libcsp_rust.Base.Texts.{is_some, unwrap_or}
use libcsp_rust.Base.Places.{has, one_if, copies, copies-remove}
use libcsp_rust.Error.{CspError, Result, ok, err}
use libcsp_rust.Port.{Port, ping, uptime, custom, from_u8, to_u8, to_u8-from_u8, is_service_port}
use libcsp_rust.Socket.{SocketApi, bind}
use libcsp_rust.Packet.Ownership.{Buffers, into_raw}
use libcsp_rust.Packet.Ownership as Ownership
use libcsp_rust.Connection.Lifetime.{Conns}
use libcsp_rust.Service
use libcsp_rust.Service.{
  Effect, replied, no_reply, serviced, dropped, ServiceHandler, Dispatcher, insert, find, register,
  bind_service, dispatch, reply, report,
}
use libcsp_rust.Service.Routing.{dispatch-regular, dispatch-other}
use libcsp_rust.Service.Custody.{given_back, IsTidy, run_conns, run_conns-kept}

-- The packet goes back.
unfoldable pub echo : {U : Type 0} → ServiceHandler (Buffers × U) ℕ
echo pkt s = (some pkt, s)

-- The packet is freed at the end of the closure.
unfoldable pub logger : {U : Type 0} → ServiceHandler (Buffers × U) ℕ
logger pkt (w, u) = (none, (Ownership.drop pkt w, u))

-- `?`
unfoldable pub chain : {D : Type 0} → Result (Unit {0}) × D → (D → Result D) → Result D
chain (err e, d) next = err e
chain (ok u, d) next = next d

module _ {Socket F U : Type 0} (api : SocketApi Socket) where
  -- Each step of `main` with those that follow it
  abbrev with_logger :
      Dispatcher Socket (Buffers × U) ℕ F → Result (Dispatcher Socket (Buffers × U) ℕ F)
  with_logger d = chain (register api d (custom 11) logger) (λ d'. ok d')

  abbrev with_echo :
      Dispatcher Socket (Buffers × U) ℕ F → Result (Dispatcher Socket (Buffers × U) ℕ F)
  with_echo d = chain (register api d (custom 10) echo) with_logger

  abbrev with_uptime :
      Dispatcher Socket (Buffers × U) ℕ F → Result (Dispatcher Socket (Buffers × U) ℕ F)
  with_uptime d = chain (bind_service api d uptime) with_echo

  -- The dispatcher that `main` runs, over a new socket
  unfoldable pub server : Socket → Result (Dispatcher Socket (Buffers × U) ℕ F)
  server socket = chain (bind_service api (Service.new socket) ping) with_uptime

chain-ok :
    {D : Type 0} (r : Result (Unit {0}) × D) (next : D → Result D) (d' : D)
    → chain r next ≡ ok d'
    → (r.0 ≡ ok tt) × (next r.1 ≡ ok d')
unfolding chain
chain-ok (err e, d) next d' h = absurd (ground (arith, h))
chain-ok (ok u, d) next d' h = (refl, h)

Result-cases : (r : Result (Unit {0})) → ((e : CspError) × (r ≡ err e)) ⊎ (r ≡ ok tt)
Result-cases (err e) = inl (e, refl)
Result-cases (ok u) = inr refl

module _ {Socket F U : Type 0} (api : SocketApi Socket) where
  register-handlers :
      (d : Dispatcher Socket (Buffers × U) ℕ F) (port : Port) (h : ServiceHandler (Buffers × U) ℕ)
      → (register api d port h).0 ≡ ok tt
      → ((register api d port h).1.handlers ≡ insert (to_u8 port) h d.handlers)
        × ((register api d port h).1.result_handlers ≡ d.result_handlers)
        × ((register api d port h).1.error_callback ≡ d.error_callback)
  unfolding register
  register-handlers d port h k = elim (Result-cases (bind api d.socket (to_u8 port)).0) [
    | inl (e, f) ↦ absurd (ground (arith, rw (f, register) at k))
    | inr f ↦ rw (f, register) (refl, refl, refl)
  ]

  -- The handlers of the server
  server-handlers :
      (socket : Socket) (d : Dispatcher Socket (Buffers × U) ℕ F)
      → server api socket ≡ ok d
      → (d.handlers ≡ (10, echo) ∷ (11, logger) ∷ [])
        × (d.result_handlers ≡ [])
        × (d.error_callback ≡ none)
  unfolding server Service.new bind_service insert to_u8
  server-handlers socket d h =
      let d1 = (bind_service api (Service.new socket) ping).1 in
      let d2 = (bind_service api d1 uptime).1 in
      let reg3 = register api d2 (custom 10) echo in
      let reg4 = register api reg3.1 (custom 11) logger in
      let (r1, h1) = chain-ok (bind_service api (Service.new socket) ping) (with_uptime api) d h in
      let (r2, h2) = chain-ok (bind_service api d1 uptime) (with_echo api) d h1 in
      let (r3, h3) = chain-ok reg3 (with_logger api) d h2 in
      let (r4, h4) = chain-ok reg4 (λ d'. ok d') d h3 in
      let same : reg4.1 ≡ d = ap (λ r. elim r [ ok d' ↦ d' | err e ↦ d ]) h4 in
      let (a3, b3, c3) = register-handlers d2 (custom 10) echo r3 in
      let (a4, b4, c4) = register-handlers reg3.1 (custom 11) logger r4 in
      rw (← same) (a4 ∙ ap (insert 11 logger) a3, b4 ∙ b3, c4 ∙ c3)

no_handler : {A : Type 0} (a : A) → none ≢ some a
no_handler a e = absurd (ground (arith, ap is_some e))

some-injective : {A : Type 0} (a b : A) → some a ≡ some b → a ≡ b
some-injective a b e = ap (λ o. unwrap_or o a) e

abbrev both : {U : Type 0} → List (ℕ × ServiceHandler (Buffers × U) ℕ)
both = (10, echo) ∷ (11, logger) ∷ []

echo-tidy :
    {U : Type 0} (p q : ℕ) (w : Buffers) (u : U)
    → one_if (q == p) + copies q (echo p (w, u)).1.0.owned
      ≡ copies q w.owned + given_back q (echo p (w, u)).0
unfolding echo
echo-tidy p q w u = omega arith

logger-tidy :
    {U : Type 0} (p q : ℕ) (w : Buffers) (u : U)
    → has p w.owned ≡ true
    → one_if (q == p) + copies q (logger p (w, u)).1.0.owned
      ≡ copies q w.owned + given_back q (logger p (w, u)).0
unfolding logger Ownership.drop
logger-tidy p q w u held = omega (arith, copies-remove q p w.owned held)

-- What a port's handler is
both-cases :
    {U : Type 0} (k : ℕ) (h : ServiceHandler (Buffers × U) ℕ)
    → find k both ≡ some h
    → (echo ≡ h) ⊎ (logger ≡ h)
unfolding find
both-cases k h e = elim (Bool-cases (10 == k)) [
  | inl f ↦ inl (some-injective echo h (rw f at e))
  | inr f ↦ elim (Bool-cases (11 == k)) [
    | inl g ↦ inr (some-injective logger h (rw (f, g) at e))
    | inr g ↦ absurd (no_handler h (rw (f, g) at e))
  ]
]

service_port : (p : ℕ) → is_service_port (from_u8 p) ≡ leb p 6
unfolding is_service_port
service_port p = ap (λ n. leb n 6) (to_u8-from_u8 p).0

-- What the server does with a packet, by its port
abbrev pub served : {F U : Type 0} → ℕ → ℕ → Buffers × U → Effect ℕ F × (Buffers × U)
served dport pkt s =
    if 10 == dport
    then (replied pkt, s)
    else (if 11 == dport
        then (no_reply, (logger pkt s).1)
        else (if leb dport 6 then (serviced pkt, s) else (dropped pkt, s)))

module _ {Socket F U : Type 0} (api : SocketApi Socket) where
  server-IsTidy :
      (socket : Socket) (d : Dispatcher Socket (Buffers × U) ℕ F)
      → server api socket ≡ ok d
      → IsTidy d
  unfolding find
  server-IsTidy socket d made =
      let (e, f, g) = server-handlers api socket d made in
      (
        λ k h p w u q found held. elim (both-cases k h (rw e at found)) [
          | inl same ↦ rw (← same) (echo-tidy p q w u)
          | inr same ↦ rw (← same) (logger-tidy p q w u held)
        ],
        λ k h p w u q found held. absurd (no_handler h (rw f at found)),
        λ callback err' s q found. absurd (no_handler callback (rw g at found)),
      )

  dispatch-served :
      (socket : Socket) (d : Dispatcher Socket (Buffers × U) ℕ F)
      → server api socket ≡ ok d
      → (dport pkt : ℕ) (w : Buffers) (u : U)
      → dispatch d dport pkt (w, u) ≡ served dport pkt (w, u)
  unfolding find reply echo logger
  dispatch-served socket d made dport pkt w u =
      let (e, f, g) = server-handlers api socket d made in
      elim (Bool-cases (10 == dport)) [
        | inl a ↦ rw (dispatch-regular d dport pkt (w, u) echo (rw (e, a) refl), a) refl
        | inr a ↦ elim (Bool-cases (11 == dport)) [
          | inl b ↦ rw (dispatch-regular d dport pkt (w, u) logger (rw (e, a, b) refl), a, b) refl
          | inr b ↦
              rw (dispatch-other d dport pkt (w, u) (rw (e, a, b) refl) (rw f refl), a, b)
                (rw (service_port dport) refl)
        ]
      ]

  -- Where the ports can be bound, the server sends the packets of port 10 back, frees those of port 11
  -- and of the ports that nobody has, and gives those of the ports up to 6 to libcsp's handler; and a run
  -- leaves the program with the packets and the connections that it had, each connection closed.
  pub server_lem :
      (socket : Socket) (d : Dispatcher Socket (Buffers × U) ℕ F)
      → server api socket ≡ ok d
      → (conns : List (ℕ × ℕ × List ℕ)) (s : Buffers × U) (n : Conns)
      → let ((w', u'), n') = run_conns d conns (s, n) in
        ((dport pkt : ℕ) (w : Buffers) (u : U)
          → dispatch d dport pkt (w, u) ≡ served dport pkt (w, u))
        × ((q : ℕ)
            → (copies q w'.owned ≡ copies q s.0.owned) × (copies q n'.held ≡ copies q n.held))
        × (n'.closed ≡ n.closed + length conns)
  server_lem socket d made conns s n =
      let (kept, given, closed) = run_conns-kept d (server-IsTidy socket d made) conns s n in
      (dispatch-served socket d made, kept, closed)
