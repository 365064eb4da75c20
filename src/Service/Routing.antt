-- ===== src/Service/Routing.antt =====
-- Which handler answers which port.
use libcsp_rust.Base.{
  ℕ, ◌≡◌, List, [], ◌∷◌, none, some, ◌==◌, if◌then◌else◌, length, length-append, arith, refl, ap,
  ◌+◌, suc,
}
use libcsp_rust.Error.{ok, err}
use libcsp_rust.Port.{Port, to_u8, from_u8, is_service_port}
use libcsp_rust.Socket.{SocketApi}
use libcsp_rust.Service.{
  serviced, dropped, ServiceHandler, ServiceHandlerResult, Dispatcher, insert, find, register,
  register_with_result, reply, report, dispatch, read_all, run,
}

find-insert :
    {A : Type 0} (k : ℕ) (v : A) (q : ℕ) (m : List (ℕ × A))
    → find q (insert k v m) ≡ (if q == k then some v else find q m)
unfolding find insert
find-insert k v q [] = ground arith
find-insert k v q ((k', v') ∷ m) = ground (arith, find-insert k v q m)

-- The branches of a dispatch
module _ {Socket E P F : Type 0} (d : Dispatcher Socket E P F) where
  pub dispatch-regular :
      (dport : ℕ) (p : P) (s : E) (h : ServiceHandler E P)
      → find dport d.handlers ≡ some h
      → dispatch d dport p s ≡ reply (h p s)
  unfolding dispatch
  dispatch-regular dport p s h e = rw (e, dispatch) refl

  pub dispatch-result :
      (dport : ℕ) (p : P) (s : E) (h : ServiceHandlerResult E P F)
      → find dport d.handlers ≡ none
      → find dport d.result_handlers ≡ some h
      → dispatch d dport p s ≡ report d.error_callback (h p s)
  unfolding dispatch
  dispatch-result dport p s h e f = rw (e, f, dispatch) refl

  pub dispatch-other :
      (dport : ℕ) (p : P) (s : E)
      → find dport d.handlers ≡ none
      → find dport d.result_handlers ≡ none
      → dispatch d dport p s
        ≡ (if is_service_port (from_u8 dport) then (serviced p, s) else (dropped p, s))
  unfolding dispatch
  dispatch-other dport p s e f = rw (e, f, dispatch) refl

module _ {Socket E P F : Type 0} (api : SocketApi Socket) where
  -- After a registration that succeeds, the handler answers the packets of its port, and every other
  -- port is answered as before; one that fails changes no port's answer.
  pub register-dispatch :
      (d : Dispatcher Socket E P F) (port : Port) (handler : ServiceHandler E P) (q : ℕ) (pkt : P)
      (s : E)
      → let (r, d') = register api d port handler in
        dispatch d' q pkt s ≡ (elim r [
          | err e ↦ dispatch d q pkt s
          | ok u ↦ if q == to_u8 port then reply {F = F} (handler pkt s) else dispatch d q pkt s
        ])
  unfolding register dispatch
  register-dispatch d port handler q pkt s =
      let f = find-insert (to_u8 port) handler q d.handlers in ground (arith, f)

  -- After a registration of a handler that can fail, if it succeeds, the handler answers the packets of
  -- its port unless a handler that cannot fail has that port, and every other port is answered as
  -- before; one that fails changes no port's answer.
  pub register_with_result-dispatch :
      (d : Dispatcher Socket E P F) (port : Port) (handler : ServiceHandlerResult E P F) (q : ℕ)
      (pkt : P) (s : E)
      → let (r, d') = register_with_result api d port handler in
        dispatch d' q pkt s ≡ (elim r [
          | err e ↦ dispatch d q pkt s
          | ok u ↦ elim (find q d.handlers) [
            | some regular ↦ dispatch d q pkt s
            | none ↦
                if q == to_u8 port
                then report d.error_callback (handler pkt s)
                else dispatch d q pkt s
          ]
        ])
  unfolding register_with_result dispatch
  register_with_result-dispatch d port handler q pkt s =
      let f = find-insert (to_u8 port) handler q d.result_handlers in ground (arith, f)

-- The packets read on all connections.
module _ {P : Type 0} where
  abbrev pub packets : List (ℕ × List P) → ℕ
  packets [] = 0
  packets ((dport, pkts) ∷ conns) = length pkts + packets conns

module _ {Socket E P F : Type 0} where
  length-read_all :
      (d : Dispatcher Socket E P F) (dport : ℕ) (pkts : List P) (s : E)
      → length (read_all d dport pkts s).0 ≡ length pkts
  unfolding read_all
  length-read_all d dport [] s = refl
  length-read_all d dport (pkt ∷ pkts) s =
      ap suc (length-read_all d dport pkts (dispatch d dport pkt s).1)

  -- Every packet read has exactly one effect.
  pub length-run :
      (d : Dispatcher Socket E P F) (conns : List (ℕ × List P)) (s : E)
      → length (run d conns s).0 ≡ packets conns
  unfolding run
  length-run d [] s = refl
  length-run d ((dport, pkts) ∷ conns) s =
      let (effects, s') = read_all d dport pkts s in
      omega (
        arith,
        length-append effects (run d conns s').0,
        length-read_all d dport pkts s,
        length-run d conns s',
      )
