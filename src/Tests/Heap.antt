-- ===== src/Tests/Heap.antt =====
-- The bare-metal heap at concrete inputs.
use libcsp_rust.Base.{ℕ, ◌≡◌, refl, Option, some, List, replicate}
use libcsp_rust.Embassy.RingQueue
use libcsp_rust.Embassy.RingQueue.{usize}
use libcsp_rust.Embassy.Heap.{
  Memory, Handle, store_word, malloc, allocate, layout_size, place, boxed, queue_create,
  queue_remove, queue_remove-queue_create,
}

-- A heap whose next block is at 4096, over memory that is zero.
abbrev next_block : ℕ → ℕ → Option ℕ
next_block size align = some 4096

abbrev zeros : Memory
zeros address = 0

abbrev headed : ℕ → Memory
headed size = store_word zeros 4096 size

abbrev zero_bytes : ℕ → List ℕ
zero_bytes n = replicate n 0

-- A queue of three items of eight bytes
abbrev three_items : Handle
three_items = record { buffer = 4104; queue = RingQueue.new (zero_bytes 24) 3 8 }

created_three : queue_create next_block zero_bytes zeros 3 8 ≡ (some three_items, headed 24)
unfolding queue_create malloc allocate layout_size place boxed
created_three = refl

queue_remove-queue_create_example :
    (next_block 32 8 ≡ some 4096) × (queue_remove (some three_items) (headed 24) ≡ some (4096, 32))
queue_remove-queue_create_example =
    queue_remove-queue_create next_block zero_bytes zeros (headed 24) (headed 24) 3 8 three_items
      created_three refl
