-- ===== src/Arch/Queues.antt =====
-- The queue entry points of `export_arch!` (src/arch.rs), over any backend of the queue interface.
-- CSP_QUEUE_OK is 0 and CSP_QUEUE_ERROR is -1.
pub mod Drain
pub mod Trace
use libcsp_rust.Base.{
  ℕ, zero, suc, ◌+◌, ◌-◌, ◌%◌, ◌^◌, List, [], ◌∷◌, Bool, true, false, Option, none, some, ltb, leb,
  if◌then◌else◌, length, replicate, write_at,
}
use libcsp_rust.Base.Int.{ℤ, pos, negsuc}
use libcsp_rust.Fifo.{Item, QueueMethods}

abbrev pub i32_max : ℕ
i32_max = 2 ^ 31 - 1

-- `n as i32` of an unsigned word.
abbrev pub as_i32 : ℕ → ℤ
as_i32 n = let w = n % 2 ^ 32 in if leb w i32_max then pos w else negsuc (2 ^ 32 - 1 - w)

abbrev pub status : Bool → ℤ
status true = pos 0
status false = negsuc 0

-- `csp_queue_create_static`: `create` is the backend's `queue_create`, `none` the null handle.
unfoldable pub csp_queue_create_static {ℓ} :
    {Queue : Type ℓ} → (ℕ → ℕ → Option Queue) → ℤ → ℕ → Option Queue
csp_queue_create_static create (negsuc n) item_size = none
csp_queue_create_static create (pos zero) item_size = none
csp_queue_create_static create (pos (suc n)) item_size = create (suc n) item_size

-- How far the loop of `csp_queue_empty` is: at its end, past the end of its scratch, or still running.
pub data Drained (Queue : Type 0) : Type 0 where
  emptied : Queue → Drained Queue
  overrun : Drained Queue
  running : Queue → Drained Queue

module _ (methods : QueueMethods) where
  open methods use {Queue, queue_enqueue, queue_dequeue, queue_size, queue_free_slots}

  unfoldable pub csp_queue_enqueue : Queue → Item → ℕ → ℤ × Queue
  csp_queue_enqueue q x timeout = let (done, q') = queue_enqueue q x timeout in (status done, q')

  -- The bytes that `*item` receives stand beside the status.
  unfoldable pub csp_queue_dequeue : Queue → ℕ → ℤ × Option Item × Queue
  csp_queue_dequeue q timeout =
      let (out, q') = queue_dequeue q timeout in
      elim out [ none ↦ (negsuc 0, none, q') | some x ↦ (pos 0, some x, q') ]

  unfoldable pub csp_queue_size : Queue → ℤ
  csp_queue_size q = as_i32 (queue_size q)

  unfoldable pub csp_queue_free : Queue → ℤ
  csp_queue_free q =
      let free = queue_free_slots q in if ltb i32_max free then pos i32_max else as_i32 free

  -- The loop of `csp_queue_empty` over its scratch buffer, for `fuel` rounds
  unfoldable pub drain : ℕ → List ℕ → Queue → Drained Queue
  drain zero scratch q = running q
  drain (suc fuel) scratch q =
      let (out, q') = queue_dequeue q 0 in
      elim out [
        | none ↦ emptied q'
        | some x ↦
            if leb (length x) (length scratch)
            then drain fuel (write_at scratch 0 x) q'
            else overrun
      ]

  unfoldable pub csp_queue_empty : ℕ → Queue → Drained Queue
  csp_queue_empty fuel q = drain fuel (replicate 16 0) q
