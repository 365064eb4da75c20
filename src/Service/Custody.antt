-- ===== src/Service/Custody.antt =====
-- `Dispatcher::run` (src/service.rs) with the buffers of src/packet.rs and the connections of
-- src/connection.rs: what a run does to the packets and the connections that the program holds. Packets
-- and connections are numbers; `U` is what else the handlers keep.
use libcsp_rust.Base.{
  ℕ, ◌+◌, ◌≡◌, List, [], ◌∷◌, Bool, true, false, Option, none, some, ◌==◌, if◌then◌else◌, length,
  arith, refl, ◌∙◌, inl, inr, Option-cases,
}
use libcsp_rust.Base.Places.{has, copies, one_if, copies-remove, copies-has, has-copies}
use libcsp_rust.Port.{from_u8, is_service_port}
use libcsp_rust.Packet.Ownership.{Buffers, into_raw, from_raw, drop, send, handle_service, read}
use libcsp_rust.Connection.Lifetime.{Conns}
use libcsp_rust.Connection.Lifetime as Lifetime
use libcsp_rust.Service.Routing.{dispatch-regular, dispatch-result, dispatch-other}
use libcsp_rust.Service.{
  Effect, replied, no_reply, reported, unreported, serviced, dropped, ServiceHandler,
  ServiceHandlerResult, Outcome, handled, failed, Dispatcher, find, reply, report, dispatch,
}

-- What `run` does with the packet or the reply: `send` and `handle_service` take it, and a packet that
-- no handler gets ends with its `drop`.
unfoldable pub settle : {F : Type 0} → Effect ℕ F → Buffers → Buffers
unfolding send handle_service drop into_raw
settle (replied r) w = send r w
settle no_reply w = w
settle (reported f) w = w
settle (unreported f) w = w
settle (serviced p) w = handle_service p w
settle (dropped p) w = drop p w

module _ {Socket F U : Type 0} where
  -- The inner loop: each packet is read and dispatched.
  unfoldable pub read_each :
      Dispatcher Socket (Buffers × U) ℕ F → ℕ → List ℕ → Buffers × U → Buffers × U
  unfolding dispatch settle read
  read_each d dport [] s = s
  read_each d dport (p ∷ pkts) (w, u) =
      let (effect, (w', u')) = dispatch d dport p ((read (some p) w).1, u) in
      read_each d dport pkts (settle effect w', u')

  -- The outer loop: each connection is accepted, read until no packet comes, and dropped.
  unfoldable pub run_conns :
      Dispatcher Socket (Buffers × U) ℕ F
      → List (ℕ × ℕ × List ℕ)
      → (Buffers × U) × Conns
      → (Buffers × U) × Conns
  unfolding read_each Lifetime.accept Lifetime.drop
  run_conns d [] s = s
  run_conns d ((c, dport, pkts) ∷ conns) (s, n) =
      run_conns d conns (read_each d dport pkts s, Lifetime.drop c (Lifetime.accept (some c) n).1)

-- How often a packet is the one that a handler gives back.
abbrev pub given_back : ℕ → Option ℕ → ℕ
given_back q none = 0
given_back q (some r) = one_if (q == r)

abbrev pub given_back_by : {F : Type 0} → ℕ → Outcome ℕ F → ℕ
given_back_by q (handled r) = given_back q r
given_back_by q (failed f) = 0

module _ {Socket F U : Type 0} where
  -- The handlers are safe code that owns the packet that it gets: it ends with the call, unless it is
  -- given back or sent; what they keep and what they took before is the same afterwards.
  abbrev pub IsTidy : Dispatcher Socket (Buffers × U) ℕ F → Type 0
  IsTidy d =
      ((k : ℕ) (h : ServiceHandler (Buffers × U) ℕ) (p : ℕ) (w : Buffers) (u : U) (q : ℕ)
        → find k d.handlers ≡ some h
        → has p w.owned ≡ true
        → one_if (q == p) + copies q (h p (w, u)).1.0.owned
          ≡ copies q w.owned + given_back q (h p (w, u)).0)
      × ((k : ℕ) (h : ServiceHandlerResult (Buffers × U) ℕ F) (p : ℕ) (w : Buffers) (u : U) (q : ℕ)
          → find k d.result_handlers ≡ some h
          → has p w.owned ≡ true
          → one_if (q == p) + copies q (h p (w, u)).1.0.owned
            ≡ copies q w.owned + given_back_by q (h p (w, u)).0)
      × ((callback : F → Buffers × U → Buffers × U) (f : F) (s : Buffers × U) (q : ℕ)
          → d.error_callback ≡ some callback
          → copies q (callback f s).0.owned ≡ copies q s.0.owned)

same : (q p : ℕ) → one_if (q == p) ≡ one_if (p == q)
same q p = ground arith

-- A reply that a handler gives is one that the program holds.
reply-held :
    (p r : ℕ) (w w' : Buffers)
    → has p w.owned ≡ true
    → one_if (r == p) + copies r w'.owned ≡ copies r w.owned + one_if (r == r)
    → has r w'.owned ≡ true
reply-held p r w w' h e = has-copies r w'.owned (ground (arith, e, copies-has p w.owned h))

abbrev settled : {F U : Type 0} → Effect ℕ F × (Buffers × U) → Buffers
settled r = settle r.0 r.1.0

settled-replied :
    (F : Type 0) {U : Type 0} (p : ℕ) (w : Buffers) (r : Option ℕ) (s : Buffers × U)
    → has p w.owned ≡ true
    → ((q : ℕ) → one_if (q == p) + copies q s.0.owned ≡ copies q w.owned + given_back q r)
    → (q : ℕ) → one_if (q == p) + copies q (settled (reply {F = F} (r, s))).owned ≡ copies q w.owned
unfolding reply settle send into_raw
settled-replied F p w none s h e q = omega (arith, e q)
settled-replied F p w (some r) s h e q =
    omega (arith, e q, copies-remove q r s.0.owned (reply-held p r w s.0 h (e r)))

settled-reported :
    {F U : Type 0} (callback : Option (F → Buffers × U → Buffers × U)) (p : ℕ) (w : Buffers)
    (r : Outcome ℕ F) (s : Buffers × U)
    → ((cb : F → Buffers × U → Buffers × U) (f : F) (s : Buffers × U) (q : ℕ)
        → callback ≡ some cb
        → copies q (cb f s).0.owned ≡ copies q s.0.owned)
    → has p w.owned ≡ true
    → ((q : ℕ) → one_if (q == p) + copies q s.0.owned ≡ copies q w.owned + given_back_by q r)
    → (q : ℕ)
    → one_if (q == p) + copies q (settled (report callback (r, s))).owned ≡ copies q w.owned
unfolding report settle send into_raw
settled-reported callback p w (handled none) s t h e q = omega (arith, e q)
settled-reported callback p w (handled (some r)) s t h e q =
    omega (arith, e q, copies-remove q r s.0.owned (reply-held p r w s.0 h (e r)))
settled-reported none p w (failed f) s t h e q = omega (arith, e q)
settled-reported (some cb) p w (failed f) s t h e q = omega (arith, e q, t cb f s q refl)

module _ {Socket F U : Type 0} (d : Dispatcher Socket (Buffers × U) ℕ F) (tidy : IsTidy d) where
  settled-other :
      (b : Bool) (p : ℕ) (w : Buffers) (u : U)
      → has p w.owned ≡ true
      → (q : ℕ)
      → one_if (q == p)
          + copies q
              (settled {F = F} (if b then (serviced p, (w, u)) else (dropped p, (w, u)))).owned
        ≡ copies q w.owned
  unfolding settle handle_service drop into_raw
  settled-other true p w u h q = omega (arith, copies-remove q p w.owned h)
  settled-other false p w u h q = omega (arith, copies-remove q p w.owned h)

  settled-dispatch :
      (dport p : ℕ) (w : Buffers) (u : U)
      → has p w.owned ≡ true
      → (q : ℕ)
      → one_if (q == p) + copies q (settled (dispatch d dport p (w, u))).owned ≡ copies q w.owned
  settled-dispatch dport p w u h q = elim (Option-cases (find dport d.handlers)) [
    | inl e ↦ elim (Option-cases (find dport d.result_handlers)) [
      | inl f ↦
          rw (dispatch-other d dport p (w, u) e f)
            (settled-other (is_service_port (from_u8 dport)) p w u h q)
      | inr (handler, f) ↦ rw (dispatch-result d dport p (w, u) handler e f) (
          settled-reported d.error_callback p w (handler p (w, u)).0 (handler p (w, u)).1 tidy.2 h
            (λ q. tidy.1 dport handler p w u q f h) q)
    ]
    | inr (handler, e) ↦ rw (dispatch-regular d dport p (w, u) handler e) (
        settled-replied F p w (handler p (w, u)).0 (handler p (w, u)).1 h
          (λ q. tidy.0 dport handler p w u q e h) q)
  ]

  owned-read_each :
      (dport : ℕ) (pkts : List ℕ) (s : Buffers × U) (q : ℕ)
      → copies q (read_each d dport pkts s).0.owned ≡ copies q s.0.owned
  unfolding read_each read from_raw
  owned-read_each dport [] s q = refl
  owned-read_each dport (p ∷ pkts) (w, u) q =
      let w' = (read (some p) w).1 in
      omega (
        arith,
        owned-read_each dport pkts
            (settled (dispatch d dport p (w', u)), (dispatch d dport p (w', u)).1.1) q,
        settled-dispatch dport p w' u (has-copies p w'.owned (ground arith)) q,
      )

  -- Where the handlers and the error callback hold on to no packet, a run leaves the program with the
  -- packets and the connections that it had before, whatever connections are accepted and whatever
  -- arrives on them; and as many connections were given as were accepted, and as many closed.
  pub run_conns-kept :
      (conns : List (ℕ × ℕ × List ℕ)) (s : Buffers × U) (n : Conns)
      → let ((w', u'), n') = run_conns d conns (s, n) in
        ((q : ℕ) → (copies q w'.owned ≡ copies q s.0.owned) × (copies q n'.held ≡ copies q n.held))
        × (n'.given ≡ n.given + length conns)
        × (n'.closed ≡ n.closed + length conns)
  unfolding run_conns Lifetime.accept Lifetime.from_raw Lifetime.drop
  run_conns-kept [] s n = (λ q. (refl, refl), omega arith, omega arith)
  run_conns-kept ((c, dport, pkts) ∷ conns) s n =
      let n' = Lifetime.drop c (Lifetime.accept (some c) n).1 in
      let (kept, given, closed) = run_conns-kept conns (read_each d dport pkts s) n' in
      (
        λ q. ((kept q).0 ∙ owned-read_each dport pkts s q, (kept q).1 ∙ ground arith),
        omega (arith, given),
        omega (arith, closed),
      )
