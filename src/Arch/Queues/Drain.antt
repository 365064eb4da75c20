-- ===== src/Arch/Queues/Drain.antt =====
-- `csp_queue_empty` ends with an empty queue.
use libcsp_rust.Base.{
  ℕ, zero, suc, ◌≤◌, ◌<◌, List, [], ◌∷◌, ◌≡◌, refl, arith, le→leb, none, some, length, All,
  replicate, write_at, length-write_at, ap, ◌∙◌,
}
use libcsp_rust.Fifo
use libcsp_rust.Fifo.{Item, QueueArch}
use libcsp_rust.Arch.Queues.{emptied, drain, csp_queue_empty}

module _ (arch : QueueArch) where
  open arch use {methods, IsValid, contents, zero-Immediate, dequeue-IsValid, dequeue_refines}
  open methods use {Queue, queue_dequeue}

  -- Every queued item fits the scratch buffer.
  abbrev pub FitsScratch : ℕ → Queue → Type 0
  FitsScratch room q = All (λ (x : Item). length x ≤ room) (contents q)

  dequeue_of_nil :
      (q : Queue)
      → IsValid q
      → contents q ≡ []
      → ((queue_dequeue q 0).0 ≡ none) × (contents (queue_dequeue q 0).1 ≡ [])
  dequeue_of_nil q v e =
      let p = dequeue_refines q 0 zero-Immediate v ∙ ap Fifo.dequeue e in
      (ap (λ r. r.0) p, ap (λ r. r.1) p)

  dequeue_of_cons :
      (q : Queue) (x : Item) (items : List Item)
      → IsValid q
      → contents q ≡ x ∷ items
      → ((queue_dequeue q 0).0 ≡ some x) × (contents (queue_dequeue q 0).1 ≡ items)
  dequeue_of_cons q x items v e =
      let p = dequeue_refines q 0 zero-Immediate v ∙ ap Fifo.dequeue e in
      (ap (λ r. r.0) p, ap (λ r. r.1) p)

  pub drain_lem :
      (items : List Item) (fuel : ℕ) (scratch : List ℕ) (q : Queue)
      → IsValid q
      → contents q ≡ items
      → All (λ (x : Item). length x ≤ length scratch) items
      → length items < fuel
      → (q' : Queue) × (drain methods fuel scratch q ≡ emptied q') × IsValid q' × (contents q' ≡ [])
  unfolding drain
  drain_lem items zero scratch q v e fits enough = absurd (omega arith)
  drain_lem [] (suc fuel) scratch q v e fits enough =
      let (out, rest) = dequeue_of_nil q v e in
      ((queue_dequeue q 0).1, rw (out, drain), dequeue-IsValid q 0 zero-Immediate v, rest)
  drain_lem (x ∷ items) (suc fuel) scratch q v e fits enough =
      let (out, rest) = dequeue_of_cons q x items v e in
      let (q', run, valid, empty) =
        drain_lem items fuel (write_at scratch 0 x) (queue_dequeue q 0).1
          (dequeue-IsValid q 0 zero-Immediate v) rest (rw (length-write_at scratch 0 x) fits.1)
          (omega arith) in
      (q', rw (out, drain, le→leb (length x) (length scratch) fits.0) run, valid, empty)

  -- For a backend that meets the laws of `QueueArch`, as the bare-metal and the hosted one do and the
  -- stubs do not, and a valid queue with items of at most 16 bytes: with fuel for one more round than
  -- there are items, the loop of `csp_queue_empty` ends, copies nothing past its scratch, and leaves
  -- a valid, empty queue.
  pub csp_queue_empty_lem :
      (fuel : ℕ) (q : Queue)
      → IsValid q
      → All (λ (x : Item). length x ≤ 16) (contents q)
      → length (contents q) < fuel
      → (q' : Queue) × (csp_queue_empty methods fuel q ≡ emptied q')
        × IsValid q'
        × (contents q' ≡ [])
  unfolding csp_queue_empty
  csp_queue_empty_lem fuel q v fits enough =
      drain_lem (contents q) fuel (replicate 16 0) q v refl fits enough
