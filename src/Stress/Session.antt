-- ===== src/Stress/Session.antt =====
-- The two programs of the stress test together: what arrives is some of what was sent, in any order
-- and any number of times.
use libcsp_rust.Base.{
  ℕ, ◌+◌, ◌%◌, ◌^◌, ◌≤◌, ◌<◌, List, [], ◌∷◌, map, true, Option, none, some, ◌≡◌, ◌⊎◌, inl, inr,
  refl, ◌∙◌, arith, All, length,
}
use mathlib.Core.Path.{subst}
use libcsp_rust.Packet.{value}
use libcsp_rust.Stress.Payload.{check_payload, checked, check_payload-make_payload}
use libcsp_rust.Stress.Transmit.{Conn, Sender, Turn, Sent, send_all, start}
use libcsp_rust.Stress.Transmit.Frames.{Ends, size_of, IsFrame, IsRun, send_all-IsRun}
use libcsp_rust.Stress.Receive.{Receiver, noted, receive, receive_all}

abbrev pub Among : {A : Type 0} → A → List A → Type 0
Among a [] = ⊥
Among a (x ∷ xs) = (a ≡ x) ⊎ Among a xs

All-Among : {A : Type 0} (P : A → Type 0) (a : A) (xs : List A) → All P xs → Among a xs → P a
All-Among P a [] h k = absurd k
All-Among P a (x ∷ xs) h (inl e) = rw e h.0
All-Among P a (x ∷ xs) h (inr k) = All-Among P a xs h.1 k

All-sublist :
    {A : Type 0} (P : A → Type 0) (xs ys : List A) → All P xs → All (λ y. Among y xs) ys → All P ys
All-sublist P xs [] h k = tt
All-sublist P xs (y ∷ ys) h (k, l) = (All-Among P y xs h k, All-sublist P xs ys h l)

size_of_bound : (via : Option Conn) → 8 ≤ size_of via
size_of_bound none = omega arith
size_of_bound (some conn) = ground arith

check-frame : (out : Sent) (f : IsFrame out) → check_payload out.payload ≡ checked f.0 true
check-frame out (c, h, e) =
    rw e (check_payload-make_payload c (size_of out.via) h (size_of_bound out.via))

receive-frame :
    (out : Sent) (r : Receiver)
    → IsFrame out
    → ((receive out.payload r).errors ≡ r.errors)
      × ((receive out.payload r).count ≡ (r.count + 1) % 2 ^ 64)
unfolding receive noted
receive-frame out r f = rw (check-frame out f) (refl, refl)

receive_all-frames :
    (received : List Sent) (r : Receiver)
    → All IsFrame received
    → r.count < 2 ^ 64
    → ((receive_all (map (λ (out : Sent). out.payload) received) r).errors ≡ r.errors)
      × ((receive_all (map (λ (out : Sent). out.payload) received) r).count
          ≡ (r.count + length received) % 2 ^ 64)
unfolding receive_all
receive_all-frames [] r h c = (refl, omega arith)
receive_all-frames (out ∷ received) r (f, h) c =
    let next = receive-frame out r f in
    let rest = receive_all-frames received (receive out.payload r) h (omega (arith, next.1)) in
    (rest.0 ∙ next.0, omega (arith, rest.1, next.1))

start-IsReady : ((start.active_conn ≡ none) ⊎ (start.active_conn ≡ none)) × (start.count < 2 ^ 64)
unfolding start
start-IsReady = (inl refl, omega arith)

-- If the sender starts afresh with buffers of at least 200 bytes, and the receiver gets any of what it
-- sends, in any order and any number of times, then the receiver counts each as received and none as an error.
pub session-errors :
    (buffer_size : ℕ) (turns : List Turn) (outs received : List Sent) (s : Sender) (r : Receiver)
    → 200 ≤ buffer_size
    → send_all buffer_size turns start ≡ value (outs, s)
    → All (λ out. Among out outs) received
    → r.count < 2 ^ 64
    → ((receive_all (map (λ (out : Sent). out.payload) received) r).errors ≡ r.errors)
      × ((receive_all (map (λ (out : Sent). out.payload) received) r).count
          ≡ (r.count + length received) % 2 ^ 64)
unfolding start
session-errors buffer_size turns outs received s r fits e h c =
    let run : IsRun (outs, s) =
      subst (Ends IsRun) e (send_all-IsRun buffer_size turns start fits start-IsReady) in
    receive_all-frames received r (All-sublist IsFrame outs received run.0 h) c
