-- ===== src/Embassy/Heap.antt =====
-- `malloc` and `free` of embassy-example/src/lib.rs, and the queue methods of `EmbassyArch` over them.
-- The global heap is a parameter: the block that it gives for a size and an alignment. Memory is the
-- word at each address; `usize` has 32 bits.
use libcsp_rust.Base.{
  ℕ, ◌+◌, ◌-◌, ◌*◌, ◌^◌, ◌≡◌, ◌<◌, ◌⊎◌, List, Bool, true, false, Option, none, some, ltb, leb, ◌==◌,
  if◌then◌else◌, length, arith, ap, ap₂, sym, inl, inr,
}
use libcsp_rust.Fifo.{Item}
use libcsp_rust.Embassy.RingQueue
use libcsp_rust.Embassy.RingQueue.{Queue, usize}
use libcsp_rust.Embassy.RingQueue.Inv.{IsValid, new-IsValid}

abbrev pub header_align : ℕ
header_align = 8

abbrev pub Memory : Type 0
Memory = ℕ → ℕ

abbrev pub store_word : Memory → ℕ → ℕ → Memory
store_word mem at v = λ a. if a == at then v else mem a

-- `checked_add` and `Layout::from_size_align` refuse sizes that are too large.
unfoldable pub layout_size : ℕ → Option ℕ
layout_size size =
    let total = size + header_align in
    if leb (2 ^ 32) total
    then none
    else (if ltb (2 ^ 31 - header_align) total then none else some total)

-- `free` gives the block and its size back to the heap; a null pointer gives nothing back.
unfoldable pub free : Option ℕ → Memory → Option (ℕ × ℕ)
free none mem = none
free (some ptr) mem = let base = ptr - header_align in some (base, mem base + header_align)

unfoldable pub place : ℕ → Memory → Option ℕ → Option ℕ × Memory
place size mem none = (none, mem)
place size mem (some base) = (some (base + header_align), store_word mem base size)

-- A queue with the pointer to its buffer
pub record Handle : Type 0 where
  pub buffer : ℕ
  pub queue : Queue

-- A null buffer makes a null handle.
unfoldable pub boxed : Option ℕ → Queue → Option Handle
boxed none q = none
boxed (some p) q = some (record { buffer = p; queue = q })

module _ (alloc : ℕ → ℕ → Option ℕ) where
  unfoldable pub allocate : ℕ → Memory → Option ℕ → Option ℕ × Memory
  unfolding place
  allocate size mem none = (none, mem)
  allocate size mem (some total) = place size mem (alloc total header_align)

  unfoldable pub malloc : ℕ → Memory → Option ℕ × Memory
  unfolding allocate layout_size
  malloc size mem = allocate size mem (layout_size size)

  -- `fresh` is what the allocated bytes hold. The product wraps as in a release build.
  unfoldable pub queue_create : (ℕ → List ℕ) → Memory → ℕ → ℕ → Option Handle × Memory
  unfolding malloc boxed
  queue_create fresh mem length' item_size =
      let size = usize (length' * item_size) in
      let (buffer, mem') = malloc size mem in
      (boxed buffer (RingQueue.new (fresh size) length' item_size), mem')

-- What goes back to the heap for the buffer; the box of the queue itself is freed as well.
unfoldable pub queue_remove : Option Handle → Memory → Option (ℕ × ℕ)
unfolding free
queue_remove none mem = none
queue_remove (some h) mem = free (some h.buffer) mem

-- The null handle and the null item are `none`.
unfoldable pub queue_enqueue : Option Handle → Option Item → Bool × Option Handle
queue_enqueue none item = (false, none)
queue_enqueue (some h) none = (false, some h)
queue_enqueue (some h) (some item) =
    let (done, q) = RingQueue.enqueue h.queue item in (done, some (record h { queue = q }))

-- `wanted` is whether the item pointer is not null.
unfoldable pub queue_dequeue : Option Handle → Bool → Option Item × Option Handle
queue_dequeue none wanted = (none, none)
queue_dequeue (some h) false = (none, some h)
queue_dequeue (some h) true =
    let (out, q) = RingQueue.dequeue h.queue in (out, some (record h { queue = q }))

unfoldable pub queue_size : Option Handle → ℕ
queue_size none = 0
queue_size (some h) = RingQueue.size h.queue

place-free :
    (size : ℕ) (mem mem' later : Memory) (p : ℕ) (block : Option ℕ)
    → place size mem block ≡ (some p, mem')
    → later (p - header_align) ≡ mem' (p - header_align)
    → (block ≡ some (p - header_align))
      × (free (some p) later ≡ some (p - header_align, size + header_align))
unfolding place free
place-free size mem mem' later p none e k = let e0 : none ≡ some p = ap (λ r. r.0) e in ground arith
place-free size mem mem' later p (some base) e k =
    let e0 : some (base + header_align) ≡ some p = ap (λ r. r.0) e in
    let at : base ≡ p - header_align = ground arith in
    let word : store_word mem base size (p - header_align) ≡ mem' (p - header_align) =
      ap (λ r. r.1 (p - header_align)) e in
    let held : later (p - header_align) ≡ size = ground arith in
    (ap some at, ap (λ n. some (p - header_align, n + header_align)) held)

layout_size-cases :
    (size : ℕ) → (layout_size size ≡ none) ⊎ (layout_size size ≡ some (size + header_align))
unfolding layout_size
layout_size-cases size = ground arith

-- A block that `malloc` returned and whose header was not written since is given back by `free` as the
-- heap gave it: at its own address, with the size that was asked of the heap.
free-malloc :
    (alloc : ℕ → ℕ → Option ℕ) (size : ℕ) (mem mem' later : Memory) (p : ℕ)
    → malloc alloc size mem ≡ (some p, mem')
    → later (p - header_align) ≡ mem' (p - header_align)
    → (alloc (size + header_align) header_align ≡ some (p - header_align))
      × (free (some p) later ≡ some (p - header_align, size + header_align))
unfolding malloc allocate
free-malloc alloc size mem mem' later p e k = elim (layout_size-cases size) [
  | inl refused ↦ let e0 : none ≡ some p = ap (λ r. r.0) (rw refused at e) in ground arith
  | inr total ↦
      place-free size mem mem' later p (alloc (size + header_align) header_align) (rw total at e) k
]

boxed-some :
    (block : Option ℕ) (q : Queue) (h : Handle)
    → boxed block q ≡ some h
    → (block ≡ some h.buffer) × (h.queue ≡ q)
unfolding boxed
boxed-some none q h e = absurd (ground arith)
boxed-some (some p) q h e =
    let same : record { buffer = p; queue = q } ≡ h = cc in
    (ap (λ (r : Handle). some r.buffer) same, sym (ap (λ (r : Handle). r.queue) same))

-- The buffer of a queue that was created, and whose header was not written since, goes back to the heap
-- when the queue is removed as the heap gave it: at its own address, with the size that was asked for.
pub queue_remove-queue_create :
    (alloc : ℕ → ℕ → Option ℕ) (fresh : ℕ → List ℕ) (mem mem' later : Memory)
    (length' item_size : ℕ) (h : Handle)
    → queue_create alloc fresh mem length' item_size ≡ (some h, mem')
    → later (h.buffer - header_align) ≡ mem' (h.buffer - header_align)
    → let size = usize (length' * item_size) in
      (alloc (size + header_align) header_align ≡ some (h.buffer - header_align))
      × (queue_remove (some h) later ≡ some (h.buffer - header_align, size + header_align))
unfolding queue_create queue_remove
queue_remove-queue_create alloc fresh mem mem' later length' item_size h e k =
    let size = usize (length' * item_size) in
    let (gave, is) = boxed-some (malloc alloc size mem).0 _ h (ap (λ r. r.0) e) in
    free-malloc alloc size mem mem' later h.buffer (ap₂ (λ p m. (p, m)) gave (ap (λ r. r.1) e)) k

-- The queue behind a new handle.
pub queue_create-new :
    (alloc : ℕ → ℕ → Option ℕ) (fresh : ℕ → List ℕ) (mem mem' : Memory) (length' item_size : ℕ)
    (h : Handle)
    → queue_create alloc fresh mem length' item_size ≡ (some h, mem')
    → h.queue ≡ RingQueue.new (fresh (usize (length' * item_size))) length' item_size
unfolding queue_create
queue_create-new alloc fresh mem mem' length' item_size h e =
    (boxed-some (malloc alloc (usize (length' * item_size)) mem).0 _ h (ap (λ r. r.0) e)).1

-- Where the allocated bytes have the size asked for and the size in bytes does not wrap, a queue of at
-- least one item is valid when it is created.
pub queue_create-IsValid :
    (alloc : ℕ → ℕ → Option ℕ) (fresh : ℕ → List ℕ) (mem mem' : Memory) (length' item_size : ℕ)
    (h : Handle)
    → ((n : ℕ) → length (fresh n) ≡ n)
    → 0 < length'
    → length' < 2 ^ 32
    → length' * item_size < 2 ^ 32
    → queue_create alloc fresh mem length' item_size ≡ (some h, mem')
    → IsValid h.queue
queue_create-IsValid alloc fresh mem mem' length' item_size h f a b c e =
    let size : usize (length' * item_size) ≡ length' * item_size = omega arith in
    rw (queue_create-new alloc fresh mem mem' length' item_size h e) (
      new-IsValid (fresh (usize (length' * item_size))) length' item_size a b c
        (omega (arith, f (usize (length' * item_size)))))
