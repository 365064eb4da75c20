-- ===== src/Arch/Queues/Trace.antt =====
-- What a C caller sees over any sequence of queue calls: the status codes and bytes of the FIFO.
use libcsp_rust.Base.{
  ℕ, List, [], ◌∷◌, ◌≡◌, refl, arith, Option, none, some, length, ap, ap₂, sym, ◌∙◌, ltb, true,
}
use libcsp_rust.Base.Int.{ℤ, pos, negsuc}
use libcsp_rust.Fifo
use libcsp_rust.Fifo.{Item, QueueMethods, QueueArch}
use libcsp_rust.Arch.Queues.{
  status, as_i32, csp_queue_enqueue, csp_queue_dequeue, csp_queue_size, csp_queue_free, i32_max,
}

-- The calls of libcsp, an enqueue and a dequeue with their timeouts.
pub data Call : Type 0 where
  put : Item → ℕ → Call
  get : ℕ → Call
  count : Call
  free : Call

-- The status, and the bytes received.
abbrev pub Reply : Type 0
Reply = ℤ × Option Item

module _ (methods : QueueMethods) where
  open methods use {Queue}

  unfoldable pub run : Queue → List Call → List Reply
  run q [] = []
  run q (put x timeout ∷ calls) =
      let (s, q') = csp_queue_enqueue methods q x timeout in (s, none) ∷ run q' calls
  run q (get timeout ∷ calls) =
      let (s, out, q') = csp_queue_dequeue methods q timeout in (s, out) ∷ run q' calls
  run q (count ∷ calls) = (csp_queue_size methods q, none) ∷ run q calls
  run q (free ∷ calls) = (csp_queue_free methods q, none) ∷ run q calls

-- The same calls on the abstract FIFO, which answers at once. `csp_queue_free` is answered with the
-- largest `i32`, whatever the FIFO holds.
unfoldable pub run_fifo : ℕ → List Item → List Call → List Reply
run_fifo cap items [] = []
run_fifo cap items (put x timeout ∷ calls) =
    let (done, items') = Fifo.enqueue cap items x in (status done, none) ∷ run_fifo cap items' calls
run_fifo cap items (get timeout ∷ calls) =
    let (out, items') = Fifo.dequeue items in
    elim out [
      | none ↦ (negsuc 0, none) ∷ run_fifo cap items' calls
      | some x ↦ (pos 0, some x) ∷ run_fifo cap items' calls
    ]
run_fifo cap items (count ∷ calls) = (as_i32 (length items), none) ∷ run_fifo cap items calls
run_fifo cap items (free ∷ calls) = (pos i32_max, none) ∷ run_fifo cap items calls

-- Every item put has the queue's item size, and every timeout is one at which a backend does not wait.
abbrev pub Sized : (ℕ → Type 0) → ℕ → List Call → Type 0
Sized Immediate n [] = Unit
Sized Immediate n (put x timeout ∷ calls) =
    ((n ≡ length x) × Immediate timeout) × Sized Immediate n calls
Sized Immediate n (get timeout ∷ calls) = Immediate timeout × Sized Immediate n calls
Sized Immediate n (count ∷ calls) = Sized Immediate n calls
Sized Immediate n (free ∷ calls) = Sized Immediate n calls

module _ (arch : QueueArch) where
  open arch use {
    methods, Immediate, IsValid, capacity, item_size, contents, enqueue-IsValid, dequeue-IsValid,
    enqueue_refines, dequeue_refines, enqueue_shape, dequeue_shape, size_refines,
    free_slots_default,
  }
  open methods use {Queue, queue_enqueue, queue_dequeue, queue_free_slots}

  dequeue_reply : Option Item → List Reply → List Reply
  dequeue_reply none rest = (negsuc 0, none) ∷ rest
  dequeue_reply (some x) rest = (pos 0, some x) ∷ rest

  run-get :
      (q : Queue) (timeout : ℕ) (calls : List Call)
      → run methods q (get timeout ∷ calls)
        ≡ dequeue_reply (queue_dequeue q timeout).0 (run methods (queue_dequeue q timeout).1 calls)
  unfolding run csp_queue_dequeue dequeue_reply
  run-get q timeout calls = ground arith

  run_fifo-get :
      (cap : ℕ) (items : List Item) (timeout : ℕ) (calls : List Call)
      → run_fifo cap items (get timeout ∷ calls)
        ≡ dequeue_reply (Fifo.dequeue items).0 (run_fifo cap (Fifo.dequeue items).1 calls)
  unfolding run_fifo dequeue_reply
  run_fifo-get cap [] timeout calls = refl
  run_fifo-get cap (x ∷ items) timeout calls = refl

  -- For a backend that meets the laws of `QueueArch`, no sequence of calls to enqueue, dequeue and
  -- count tells a valid queue from the bounded FIFO of its items, when each item put has the
  -- queue's item size and no timeout makes the backend wait; a call for the free slots is always
  -- answered with the largest `i32`.
  pub run_refines :
      (calls : List Call) (q : Queue)
      → IsValid q
      → Sized Immediate (item_size q) calls
      → run methods q calls ≡ run_fifo (capacity q) (contents q) calls
  unfolding run run_fifo csp_queue_enqueue csp_queue_size csp_queue_free
  run_refines [] q v h = refl
  run_refines (put x timeout ∷ calls) q v ((e, i), h) =
      let p = enqueue_refines q x timeout i v e in
      let shape = enqueue_shape q x timeout i in
      ap₂ (λ s rest. (status s, none) ∷ rest) (ap (λ r. r.0) p)
        (run_refines calls (queue_enqueue q x timeout).1 (enqueue-IsValid q x timeout i v e)
            (rw shape.1 h)
          ∙ ap₂ (λ c items. run_fifo c items calls) shape.0 (ap (λ r. r.1) p))
  run_refines (get timeout ∷ calls) q v (i, h) =
      let p = dequeue_refines q timeout i v in
      let shape = dequeue_shape q timeout i in
      run-get q timeout calls
      ∙ ap₂ dequeue_reply (ap (λ r. r.0) p) (
          run_refines calls (queue_dequeue q timeout).1 (dequeue-IsValid q timeout i v)
            (rw shape.1 h)
          ∙ ap₂ (λ c items. run_fifo c items calls) shape.0 (ap (λ r. r.1) p))
      ∙ sym (run_fifo-get (capacity q) (contents q) timeout calls)
  run_refines (count ∷ calls) q v h =
      ap₂ (λ n rest. (as_i32 n, none) ∷ rest) (size_refines q v) (run_refines calls q v h)
  run_refines (free ∷ calls) q v h =
      let many : ltb i32_max (queue_free_slots q) ≡ true = ground (arith, free_slots_default q) in
      rw many (ap (λ rest. (pos i32_max, none) ∷ rest) (run_refines calls q v h))
