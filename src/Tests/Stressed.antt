-- ===== src/Tests/Stressed.antt =====
-- The stress test at a concrete run: a packet in the first mode, a switch, a connection with a packet.
use libcsp_rust.Base.{◌%◌, ◌^◌, [], ◌∷◌, map, true, false, none, ◌≡◌, inl, refl, arith}
use libcsp_rust.Packet.{value}
use libcsp_rust.Stress.Transmit.{Turn, Sent, Sender, send_all, start}
use libcsp_rust.Stress.Transmit.Frames.{Ends, IsRun, send_all-IsRun}
use libcsp_rust.Stress.Receive.{Receiver, receive_all}
use libcsp_rust.Stress.Session.{session-errors}
use libcsp_rust.Stress.Payload.{make_payload, check_payload, checked}
use libcsp_rust.Stress.Truncate.{check_payload-take}
use libcsp_rust.Base.{take}

abbrev plain : Turn
plain = record { due = false; packet = true; connected = false; transferred = false }

abbrev switching : Turn
switching = record { due = true; packet = true; connected = true; transferred = false }

send_all-IsRun_example : Ends IsRun (send_all 256 (plain ∷ switching ∷ []) start)
unfolding start
send_all-IsRun_example =
    send_all-IsRun 256 (plain ∷ switching ∷ []) start (omega arith) (inl refl, omega arith)

abbrev first : Sent
first = record { via = none; payload = make_payload 0 200 }

abbrev fresh : Receiver
fresh = record { count = 0; bytes_recv = 0; errors = 0 }

abbrev after : Sender
after = record start { count = 1; bytes_sent = 200 }

sent_one : send_all 256 (plain ∷ []) start ≡ value (first ∷ [], after)
unfolding send_all start
sent_one = refl

session-errors_example :
    ((receive_all (map (λ (out : Sent). out.payload) (first ∷ first ∷ [])) fresh).errors ≡ 0)
    × ((receive_all (map (λ (out : Sent). out.payload) (first ∷ first ∷ [])) fresh).count
        ≡ 2 % 2 ^ 64)
session-errors_example =
    session-errors 256 (plain ∷ []) (first ∷ []) (first ∷ first ∷ []) after fresh (omega arith)
      sent_one (inl refl, (inl refl, tt)) (omega arith)

-- Eight of twenty bytes arrive.
check_payload-take_example : check_payload (take 8 (make_payload 7 20)) ≡ checked 7 true
check_payload-take_example = check_payload-take 7 20 8 (omega arith) (omega arith) (omega arith)
