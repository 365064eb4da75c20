-- ===== src/Stress/Receive.antt =====
-- examples/stress_rx.rs: the two receiving loops, which treat what they read alike.
use libcsp_rust.Base.{
  ℕ, ◌+◌, ◌%◌, ◌^◌, List, [], ◌∷◌, length, if◌then◌else◌, Option, none, some, Bool, not, ◌++◌, ◌≡◌,
  refl, sym, ◌∙◌,
}
use libcsp_rust.Base.Texts.{is_some}
use libcsp_rust.Stress.Payload.{Verdict, too_short, checked, check_payload}

pub record Receiver : Type 0 where
  pub count : ℕ
  pub bytes_recv : ℕ
  pub errors : ℕ

-- The counters are u64.
unfoldable pub noted : ℕ → Verdict → Receiver → Receiver
noted size too_short r = record r { errors = (r.errors + 1) % 2 ^ 64 }
noted size (checked pkt_count matches) r = record r {
  errors = if matches then r.errors else (r.errors + 1) % 2 ^ 64;
  bytes_recv = (r.bytes_recv + size) % 2 ^ 64;
  count = (r.count + 1) % 2 ^ 64;
}

unfoldable pub receive : List ℕ → Receiver → Receiver
unfolding noted
receive bytes r = noted (length bytes) (check_payload bytes) r

unfoldable pub receive_all : List (List ℕ) → Receiver → Receiver
receive_all [] r = r
receive_all (bytes ∷ rest) r = receive_all rest (receive bytes r)

-- What a non-blocking accept gives: nothing, or a connection with all that is read from it.
unfoldable pub accepted : Option (List (List ℕ)) → Receiver → Receiver
unfolding receive_all
accepted none r = r
accepted (some read) r = receive_all read r

-- One turn of the loop, with what the two sockets give, and whether it ends with a sleep
unfoldable pub turn : Option (List (List ℕ)) → Option (List (List ℕ)) → Receiver → Receiver × Bool
unfolding accepted
turn data' sfp r = (accepted sfp (accepted data' r), not (is_some sfp))

unfoldable pub turns : List (Option (List (List ℕ)) × Option (List (List ℕ))) → Receiver → Receiver
unfolding turn
turns [] r = r
turns ((data', sfp) ∷ rest) r = turns rest (turn data' sfp r).0

-- All that arrives in the turns, in its order
abbrev pub arrived : Option (List (List ℕ)) → List (List ℕ)
arrived none = []
arrived (some read) = read

abbrev pub arrivals : List (Option (List (List ℕ)) × Option (List (List ℕ))) → List (List ℕ)
arrivals [] = []
arrivals ((data', sfp) ∷ rest) = arrived data' ++ (arrived sfp ++ arrivals rest)

receive_all-append :
    (xs ys : List (List ℕ)) (r : Receiver)
    → receive_all (xs ++ ys) r ≡ receive_all ys (receive_all xs r)
unfolding receive_all
receive_all-append [] ys r = refl
receive_all-append (x ∷ xs) ys r = receive_all-append xs ys (receive x r)

accepted-arrived :
    (c : Option (List (List ℕ))) (ys : List (List ℕ)) (r : Receiver)
    → receive_all (arrived c ++ ys) r ≡ receive_all ys (accepted c r)
unfolding accepted
accepted-arrived none ys r = refl
accepted-arrived (some xs) ys r = receive_all-append xs ys r

-- However the connections are spread over the two sockets and the turns, the receiver counts what it
-- would count of the same packets one after the other.
pub turns-receive_all :
    (ts : List (Option (List (List ℕ)) × Option (List (List ℕ)))) (r : Receiver)
    → turns ts r ≡ receive_all (arrivals ts) r
unfolding turns turn receive_all
turns-receive_all [] r = refl
turns-receive_all ((data', sfp) ∷ rest) r =
    turns-receive_all rest (accepted sfp (accepted data' r))
    ∙ sym (
        accepted-arrived data' (arrived sfp ++ arrivals rest) r
        ∙ accepted-arrived sfp (arrivals rest) (accepted data' r))
