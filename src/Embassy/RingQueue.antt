-- ===== src/Embassy/RingQueue.antt =====
-- embassy-example/src/queue.rs, the circular buffer of the bare-metal backend. Each method runs with
-- interrupts off, so it is one step on the state.
pub mod Inv
pub mod Refine
pub mod Abstract
use libcsp_rust.Base.{
  ℕ, ◌+◌, ◌-◌, ◌*◌, ◌%◌, ◌^◌, List, Bool, true, false, Option, none, some, leb, ◌==◌, if◌then◌else◌,
  take, read_at, write_at,
}
use libcsp_rust.Fifo.{Item}

-- `usize` of the Cortex-M targets has 32 bits.
abbrev pub usize : ℕ → ℕ
usize n = n % 2 ^ 32

-- `buffer` is the memory that the raw pointer points to, the cells are plain fields.
pub record Queue : Type 0 where
  pub buffer : List ℕ
  pub capacity : ℕ
  pub item_size : ℕ
  pub head : ℕ
  pub tail : ℕ
  pub count : ℕ

unfoldable pub new : List ℕ → ℕ → ℕ → Queue
new buffer capacity item_size = record {
  buffer = buffer;
  capacity = capacity;
  item_size = item_size;
  head = 0;
  tail = 0;
  count = 0;
}

-- The list is the memory from the pointer `item` on, of which `item_size` bytes are copied. A write
-- outside the buffer changes nothing here; `Inv.in_bounds` rules it out.
unfoldable pub enqueue : Queue → Item → Bool × Queue
enqueue q item = if leb q.capacity q.count then (false, q) else (
  true,
  record q {
    tail = usize (q.tail + 1) % q.capacity;
    buffer = write_at q.buffer (usize (q.tail * q.item_size)) (take q.item_size item);
    count = usize (q.count + 1);
  },
)

-- The option is the returned Boolean, with the bytes that are copied out.
unfoldable pub dequeue : Queue → Option Item × Queue
dequeue q = if q.count == 0 then (none, q) else (
  some (read_at q.buffer (usize (q.head * q.item_size)) q.item_size),
  record q { head = usize (q.head + 1) % q.capacity; count = q.count - 1 },
)

unfoldable pub size : Queue → ℕ
size q = q.count
