-- ===== src/Embassy/RingQueue/Inv.antt =====
-- The representation invariant of the circular buffer: no index wraps, no copy leaves the buffer.
use libcsp_rust.Base.{
  ℕ, ◌+◌, ◌-◌, ◌*◌, ◌%◌, ◌^◌, ◌≤◌, ◌<◌, List, ◌≡◌, arith, length, take, length-write_at,
}
use native.Mathlib.Nat.{mod-eq_of_lt, mod-add-mod, mod-lt}
use libcsp_rust.Fifo.{Item}
use libcsp_rust.Embassy.RingQueue.{Queue, usize, new, enqueue, dequeue}

pub record IsValid (q : Queue) : Type 0 where
  pub storage : q.capacity * q.item_size ≤ length q.buffer
  pub small : q.capacity < 2 ^ 32
  pub addressable : q.capacity * q.item_size < 2 ^ 32
  pub head_in : q.head < q.capacity
  pub count_in : q.count ≤ q.capacity
  pub tail_at : q.tail ≡ (q.head + q.count) % q.capacity

-- A slot index below the capacity is a byte range inside the buffer.
pub slot_in :
    (i capacity item_size : ℕ) → i < capacity → i * item_size + item_size ≤ capacity * item_size
slot_in i capacity item_size h = grind arith

tail_in : {q : Queue} → IsValid q → q.tail < q.capacity
tail_in v = grind arith

-- On a valid queue no index computation wraps, and both copies stay inside the buffer.
pub in_bounds :
    {q : Queue}
    → IsValid q
    → (usize (q.tail + 1) ≡ q.tail + 1)
      × (usize (q.head + 1) ≡ q.head + 1)
      × (usize (q.tail * q.item_size) + q.item_size ≤ length q.buffer)
      × (usize (q.head * q.item_size) + q.item_size ≤ length q.buffer)
      × (usize (q.tail * q.item_size) ≡ q.tail * q.item_size)
      × (usize (q.head * q.item_size) ≡ q.head * q.item_size)
in_bounds {q} v = omega (
  arith,
  tail_in v,
  slot_in q.tail q.capacity q.item_size (tail_in v),
  slot_in q.head q.capacity q.item_size v.head_in,
)

-- A new queue is valid when its capacity is not 0, its items fit the buffer, and neither its
-- capacity nor its size in bytes reaches 2 ^ 32.
pub new-IsValid :
    (buffer : List ℕ) (capacity item_size : ℕ)
    → 0 < capacity
    → capacity < 2 ^ 32
    → capacity * item_size < 2 ^ 32
    → capacity * item_size ≤ length buffer
    → IsValid (new buffer capacity item_size)
unfolding new
new-IsValid buffer capacity item_size h k l m = ground (arith, mod-eq_of_lt h)

-- Enqueueing, whether the item is taken or refused, keeps a valid queue valid.
pub enqueue-IsValid : {q : Queue} (x : Item) → IsValid q → IsValid (enqueue q x).1
unfolding enqueue
enqueue-IsValid {q} x v = ground (
  arith,
  in_bounds v,
  mod-add-mod (q.head + q.count) q.capacity 1,
  length-write_at q.buffer (usize (q.tail * q.item_size)) (take q.item_size x),
  mod-lt (q.tail + 1) {m = q.capacity} (omega arith),
)

-- Dequeueing, whether there is an item or not, keeps a valid queue valid.
pub dequeue-IsValid : {q : Queue} → IsValid q → IsValid (dequeue q).1
unfolding dequeue
dequeue-IsValid {q} v = ground (
  arith,
  in_bounds v,
  mod-add-mod (q.head + 1) q.capacity (q.count - 1),
  mod-lt (q.head + 1) {m = q.capacity} (omega arith),
)
