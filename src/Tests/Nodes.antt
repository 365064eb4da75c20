-- ===== src/Tests/Nodes.antt =====
-- The start of a node, its packets and its threads at concrete inputs.
use libcsp_rust.Base.{ℕ, List, [], ◌∷◌, true, false, none, ◌≡◌, ◌≤◌, ◌↔◌, refl, arith}
use libcsp_rust.Error.{already_initialized, ok, err}
use libcsp_rust.Node
use libcsp_rust.Node.{CspConfig, Runtime, setup}
use libcsp_rust.Node.Once.{inits, inits-once}
use libcsp_rust.Base.Places.{has, copies}
use libcsp_rust.Packet.Ownership.{Buffers, get, send, Reachable, starts, goes_on, gets, sends}
use libcsp_rust.Packet.Ownership.Exclusive.{total, owned-exclusive}
use libcsp_rust.Base.Int.{pos}
use libcsp_rust.Base.{some}
use libcsp_rust.Arch.Threads.{Backend, idle, in_turn, create_all, begin_all, calls-wanted}
use libcsp_rust.TestArch.Threads
use libcsp_rust.TestArch.Threads.{
  Shared, Phase, created, calling, callers, thread_create, thread_wrapper, creates, one_caller,
}

abbrev off : Runtime
off = record { initialized = false; node_address = 0; effects = [] }

abbrev second : CspConfig
second = Node.address Node.default 9

inits-once_example : inits off ((true, Node.default) ∷ (true, second) ∷ []) ≡ (
  ok tt ∷ err already_initialized ∷ [],
  record { initialized = true; node_address = 1; effects = setup true Node.default },
)
unfolding Node.default
inits-once_example = inits-once off true Node.default ((true, second) ∷ []) refl

-- One of two buffers is allocated and sent.
abbrev pool : List ℕ
pool = 4 ∷ 8 ∷ []

abbrev got : Buffers
got = (get (record { free = pool; owned = []; inside = [] })).1

abbrev sent : Buffers
sent = send 4 got

sent-Reachable : Reachable pool sent
unfolding get
sent-Reachable = goes_on (goes_on starts (gets _)) (sends 4 got refl)

owned-exclusive_example :
    (total 4 sent ≡ 1)
    × ((has 4 sent.owned ≡ true)
        ↔ ((copies 4 sent.owned ≡ 1) × (copies 4 sent.free ≡ 0) × (copies 4 sent.inside ≡ 0)))
owned-exclusive_example = owned-exclusive 4 sent-Reachable refl

-- A thread for every call, with the caller's argument
abbrev handing_on : Backend
handing_on arg = (pos 0, some arg)

calls-wanted_example :
    ((in_turn handing_on ((10, 1) ∷ (20, 2) ∷ []) (idle 0)).calls ≡ (10, 1) ∷ (20, 2) ∷ [])
    × ((begin_all 2 (create_all handing_on ((10, 1) ∷ (20, 2) ∷ []) (idle 0))).calls
        ≡ (20, 1) ∷ (20, 2) ∷ [])
calls-wanted_example =
    calls-wanted handing_on (λ arg. arg) (λ arg. refl) 0 10 1 ((20, 2) ∷ [])
      (omega arith, (omega arith, tt)) (omega arith)

-- A thread is in its function.
abbrev busy : Shared
busy = record { locked = true; fns = 10 ∷ [] }

busy-Reachable : Threads.Reachable (busy, calling 10 ∷ [])
unfolding thread_create thread_wrapper
busy-Reachable =
    Threads.steps (Threads.steps Threads.starts (creates 10 _ _ (created 10) [] refl))
      (Threads.goes_on [] (created 10) (calling 10) [] _ _ refl)

one_caller_example :
    (callers (calling 10 ∷ []) ≤ 1)
    × ((callers (calling 10 ∷ []) ≡ 1)
        ↔ ((thread_create 20 busy ≡ none) × (thread_wrapper (created 30) busy ≡ none)))
one_caller_example = one_caller busy (calling 10 ∷ []) 20 30 busy-Reachable
