-- ===== src/Tests/Queues.antt =====
-- The queues at concrete inputs.
use libcsp_rust.Base.{ℕ, ◌≡◌, arith, List, [], ◌∷◌, true, false, some, take, replicate}
use mathlib.Core.Equiv.{IsEquiv}
use mathlib.Core.Quot
use libcsp_rust.Base.{length}
use libcsp_rust.Fifo
use libcsp_rust.Fifo.{Item}
use libcsp_rust.Embassy.RingQueue.Abstract.{State, view, put_state, get_state, view_refines}
use libcsp_rust.Embassy.RingQueue.{Queue, new, enqueue, dequeue}
use libcsp_rust.Embassy.RingQueue.Inv.{IsValid, new-IsValid, enqueue-IsValid}
use libcsp_rust.Embassy.RingQueue.Refine.{contents, ring_arch}
use libcsp_rust.TestArch.Queue.{
  TestQueue, Round, returned, wait_forever, queue_enqueue, queue_dequeue,
}
use libcsp_rust.TestArch.Queue.Blocking.{
  Enqueued, Dequeued, queue_enqueue-Enqueued, queue_dequeue-Dequeued, queue_enqueue_ends,
}
use libcsp_rust.Arch.Queues.{emptied, csp_queue_empty}
use libcsp_rust.Arch.Queues.Drain.{csp_queue_empty_lem}
use libcsp_rust.Arch.Queues.Trace.{Call, put, get, count, free}

abbrev pair : List ℕ
pair = 7 ∷ 8 ∷ []

abbrev fresh : Queue
fresh = new (replicate 4 0) 2 2

fresh-IsValid : IsValid fresh
fresh-IsValid =
    new-IsValid (replicate 4 0) 2 2 (omega arith) (omega arith) (omega arith) (omega arith)

abbrev one_pair : Queue
one_pair = (enqueue fresh pair).1

one_pair-IsValid : IsValid one_pair
one_pair-IsValid = enqueue-IsValid pair fresh-IsValid

view_refines_example :
    IsEquiv (view 2 2)
    × ((q : State 2 2) (x : Item) (e : 2 ≡ length x)
        → ((enqueue q.0 x).0, (view 2 2 (Quot.mk (put_state q x e))).0)
          ≡ Fifo.enqueue 2 (view 2 2 (Quot.mk q)).0 x)
    × ((q : State 2 2)
        → ((dequeue q.0).0, (view 2 2 (Quot.mk (get_state q))).0)
          ≡ Fifo.dequeue (view 2 2 (Quot.mk q)).0)
view_refines_example = view_refines 2 2 (omega arith) (omega arith) (omega arith)

-- A hosted queue of two pairs, and calls that fill it and empty it again
abbrev created_hosted : TestQueue
created_hosted = record { data' = []; max_len = 2; item_size = 2 }

abbrev fill_and_empty : List Call
fill_and_empty = put pair 0 ∷ put pair 0 ∷ put pair 0 ∷ free ∷ count ∷ get 0 ∷ get 0 ∷ get 0 ∷ []

csp_queue_empty_example :
    (q' : Queue) × (csp_queue_empty ring_arch.methods 2 one_pair ≡ emptied q')
    × IsValid q'
    × (contents q' ≡ [])
unfolding new enqueue
csp_queue_empty_example =
    csp_queue_empty_lem ring_arch 2 one_pair one_pair-IsValid (omega arith, tt) (omega arith)

abbrev hosted : TestQueue
hosted = record { data' = pair ∷ []; max_len = 2; item_size = 2 }

-- Another thread fills the queue while the caller waits, then takes both items.
abbrev full_then_empty : List Round
full_then_empty =
    record { late = false; seen = pair ∷ pair ∷ []; timed_out = false }
    ∷ record { late = false; seen = []; timed_out = false }
    ∷ []

queue_enqueue-Enqueued_example :
    Enqueued hosted full_then_empty 100
      (take 2 pair)
      (queue_enqueue (some hosted) (some pair) 100 full_then_empty)
queue_enqueue-Enqueued_example =
    queue_enqueue-Enqueued hosted pair 100 full_then_empty (omega arith)
      (omega arith, (omega arith, tt))

queue_dequeue-Dequeued_example :
    Dequeued hosted full_then_empty wait_forever pair
      (queue_dequeue (some hosted) (some pair) wait_forever full_then_empty)
queue_dequeue-Dequeued_example =
    queue_dequeue-Dequeued hosted pair wait_forever full_then_empty (omega arith)
      (omega arith, (omega arith, tt))

queue_enqueue_ends_example :
    (q' : TestQueue) × (queue_enqueue
        (some hosted)
        (some pair)
        wait_forever
        (record { late = false; seen = []; timed_out = false } ∷ [])
      ≡ returned true (some q'))
queue_enqueue_ends_example =
    queue_enqueue_ends hosted pair [] (record { late = false; seen = []; timed_out = false }) []
      (omega arith)
