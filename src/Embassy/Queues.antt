-- ===== src/Embassy/Queues.antt =====
-- The queues of embassy-example/src/lib.rs as libcsp uses them: created on the heap by way of
-- `csp_queue_create_static` of src/arch.rs, then called by their handles.
use libcsp_rust.Base.{ℕ, ◌-◌, ◌^◌, ◌≡◌, List, Option, some, true, arith, refl}
use libcsp_rust.Fifo.{Item, QueueArch}
use libcsp_rust.Embassy.RingQueue
use libcsp_rust.Embassy.RingQueue.{Queue}
use libcsp_rust.Embassy.RingQueue.Inv.{IsValid}
use libcsp_rust.Embassy.RingQueue.Refine.{contents, ring_arch}
use libcsp_rust.Embassy.Heap.{
  queue_enqueue, queue_dequeue, queue_size, Memory, Handle, queue_create,
}

-- A live handle is a backend of the queue interface. It does not wait, whatever the timeout, and has
-- the trait's `queue_free_slots`, the largest `usize`.
abbrev pub handle_arch : QueueArch
handle_arch = record {
  methods = record {
    Queue = Handle;
    queue_enqueue = λ h x timeout.
        let (done, q) = RingQueue.enqueue h.queue x in (done, record h { queue = q });
    queue_dequeue =
        λ h timeout. let (out, q) = RingQueue.dequeue h.queue in (out, record h { queue = q });
    queue_size = λ h. RingQueue.size h.queue;
    queue_free_slots = λ h. 2 ^ 32 - 1;
  };
  Immediate = λ timeout. Unit;
  IsValid = λ h. IsValid h.queue;
  capacity = λ h. h.queue.capacity;
  item_size = λ h. h.queue.item_size;
  contents = λ h. contents h.queue;
  zero-Immediate = tt;
  enqueue-IsValid = λ h x timeout i v e. ring_arch.enqueue-IsValid h.queue x timeout i v e;
  dequeue-IsValid = λ h timeout i v. ring_arch.dequeue-IsValid h.queue timeout i v;
  enqueue_shape = λ h x timeout i. ring_arch.enqueue_shape h.queue x timeout i;
  dequeue_shape = λ h timeout i. ring_arch.dequeue_shape h.queue timeout i;
  enqueue_refines = λ h x timeout i v e. ring_arch.enqueue_refines h.queue x timeout i v e;
  dequeue_refines = λ h timeout i v. ring_arch.dequeue_refines h.queue timeout i v;
  size_refines = λ h v. ring_arch.size_refines h.queue v;
  free_slots_default = λ h. omega arith;
}

-- It has the methods of the backend on pointers that are not null.
methods-handle_arch :
    (h : Handle) (x : Item) (timeout : ℕ)
    → (queue_enqueue (some h) (some x) ≡ (
      (handle_arch.methods.queue_enqueue h x timeout).0,
      some (handle_arch.methods.queue_enqueue h x timeout).1,
    ))
      × (queue_dequeue (some h) true ≡ (
        (handle_arch.methods.queue_dequeue h timeout).0,
        some (handle_arch.methods.queue_dequeue h timeout).1,
      ))
      × (queue_size (some h) ≡ handle_arch.methods.queue_size h)
unfolding queue_enqueue queue_dequeue queue_size
methods-handle_arch h x timeout = (refl, refl, refl)

abbrev pub embassy_create : (ℕ → ℕ → Option ℕ) → (ℕ → List ℕ) → Memory → ℕ → ℕ → Option Handle
embassy_create alloc fresh mem length' item_size =
    (queue_create alloc fresh mem length' item_size).0
