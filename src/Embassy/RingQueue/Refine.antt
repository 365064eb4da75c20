-- ===== src/Embassy/RingQueue/Refine.antt =====
-- A valid circular buffer is the FIFO of the items in its occupied slots, oldest first.
use libcsp_rust.Base.{
  ℕ, zero, suc, ◌+◌, ◌-◌, ◌*◌, ◌%◌, ◌^◌, ◌≤◌, ◌<◌, List, [], ◌∷◌, ◌++◌, ◌≡◌, ◌≢◌, refl, ap, sym,
  ap₂, ◌∙◌, arith, length, take_all, read_at, write_at, read_at-write_at_self,
  read_at-write_at_before, read_at-write_at_after,
}
use native.Mathlib.Nat.{mod-eq_of_lt, mod-add-mod, mod-eq-sub-mod, add-zero, mod-lt}
use native.Mathlib.Decide.{dec_lt}
use libcsp_rust.Fifo
use libcsp_rust.Fifo.{Item, QueueArch}
use libcsp_rust.Embassy.RingQueue.{Queue, enqueue, dequeue, size}
use libcsp_rust.Embassy.RingQueue.Inv.{
  IsValid, slot_in, in_bounds, enqueue-IsValid, dequeue-IsValid,
}

module _ (buffer : List ℕ) (capacity item_size : ℕ) where
  -- The items of `n` slots from slot `h` on, round the end of the buffer.
  abbrev pub slots : ℕ → ℕ → List Item
  slots h zero = []
  slots h (suc n) = read_at buffer (h * item_size) item_size ∷ slots ((h + 1) % capacity) n

  length-slots : (h n : ℕ) → length (slots h n) ≡ n
  length-slots h zero = refl
  length-slots h (suc n) = ap suc (length-slots ((h + 1) % capacity) n)

  slots_of_ne_zero :
      (h n : ℕ)
      → n ≢ 0
      → slots h n ≡ read_at buffer (h * item_size) item_size ∷ slots ((h + 1) % capacity) (n - 1)
  slots_of_ne_zero h zero ne = absurd (ne refl)
  slots_of_ne_zero h (suc n) ne = ap (λ k. slots h (suc k)) (omega arith)

abbrev pub contents : Queue → List Item
contents q = slots q.buffer q.capacity q.item_size q.head q.count

pub length-contents : (q : Queue) → length (contents q) ≡ q.count
length-contents q = length-slots q.buffer q.capacity q.item_size q.head q.count

-- Fewer than `capacity` steps round the buffer never lead back to the start.
round-ne : {c h k : ℕ} → h < c → suc k < c → (h + suc k) % c ≢ h
round-ne {c} {h} {k} hh hk = elim (dec_lt (h + suc k) c) [
  | yes p ↦ omega (arith, mod-eq_of_lt p)
  | no p ↦ omega (
    arith,
    mod-eq-sub-mod {n = h + suc k} {m = c} (omega arith),
    mod-eq_of_lt {n = h + suc k - c} {m = c} (omega arith),
  )
]

-- Distinct slots do not share a byte.
read_slot-write_ne :
    (buffer : List ℕ) (i j s : ℕ) (x : Item)
    → length x ≡ s
    → i ≢ j
    → read_at (write_at buffer (j * s) x) (i * s) s ≡ read_at buffer (i * s) s
read_slot-write_ne buffer i j s x e ne = elim (dec_lt i j) [
  | yes p ↦ read_at-write_at_before buffer (i * s) s (j * s) x (slot_in i j s p)
  | no p ↦
      read_at-write_at_after buffer (i * s) s (j * s) x (omega (arith, slot_in j i s (omega arith)))
]

-- Writing the slot just past the occupied ones appends that item.
slots-write :
    (buffer : List ℕ) (c s n h t : ℕ) (x : Item)
    → c * s ≤ length buffer
    → length x ≡ s
    → h < c
    → n < c
    → t ≡ (h + n) % c
    → slots (write_at buffer (t * s) x) c s h (suc n) ≡ slots buffer c s h n ++ (x ∷ [])
slots-write buffer c s zero h t x st e hh hn te =
    let at : t ≡ h = omega (arith, mod-eq_of_lt hh, ap (λ (k : ℕ). k % c) (add-zero h)) in
    rw at (
      ap (λ y. y ∷ [])
        (read_at-write_at_self buffer (h * s) s x (sym e) (omega (arith, slot_in h c s hh))))
slots-write buffer c s (suc n) h t x st e hh hn te =
    ap₂ ◌∷◌ (read_slot-write_ne buffer h t s x e λ eq. round-ne hh hn (sym (eq ∙ te))) (
      slots-write buffer c s n ((h + 1) % c) t x st e (mod-lt (h + 1) (omega arith)) (omega arith)
        (te ∙ shift))
  where
    shift : (h + suc n) % c ≡ ((h + 1) % c + n) % c
    shift = rw mod-add-mod (ap (λ k. k % c) (omega arith))

-- On a valid queue, `enqueue` of an item of the queue's size returns what the FIFO returns, and leaves
-- the buffer holding the FIFO's items.
pub enqueue_refines :
    (q : Queue) (x : Item)
    → IsValid q
    → q.item_size ≡ length x
    → let (done, q') = enqueue q x in (done, contents q') ≡ Fifo.enqueue q.capacity (contents q) x
unfolding enqueue
enqueue_refines q x v e = ground (
  arith,
  in_bounds v,
  length-contents q,
  take_all q.item_size x,
  slots-write q.buffer q.capacity q.item_size q.count q.head q.tail x,
)

-- On a valid queue, `dequeue` returns the oldest item, or nothing from an empty buffer, and leaves the rest.
pub dequeue_refines :
    (q : Queue)
    → IsValid q
    → let (out, q') = dequeue q in (out, contents q') ≡ Fifo.dequeue (contents q)
unfolding dequeue
dequeue_refines q v =
    ground (arith, in_bounds v, slots_of_ne_zero q.buffer q.capacity q.item_size q.head q.count)

pub size_refines : (q : Queue) → IsValid q → size q ≡ length (contents q)
unfolding size
size_refines q v = sym (length-contents q)

pub enqueue_shape :
    (q : Queue) (x : Item)
    → ((enqueue q x).1.capacity ≡ q.capacity) × ((enqueue q x).1.item_size ≡ q.item_size)
unfolding enqueue
enqueue_shape q x = ground arith

pub dequeue_shape :
    (q : Queue) → ((dequeue q).1.capacity ≡ q.capacity) × ((dequeue q).1.item_size ≡ q.item_size)
unfolding dequeue
dequeue_shape q = ground arith

-- The circular buffer is a backend of the queue interface. It ignores the timeout and never waits.
abbrev pub ring_arch : QueueArch
ring_arch = record {
  methods = record {
    Queue = Queue;
    queue_enqueue = λ q x timeout. enqueue q x;
    queue_dequeue = λ q timeout. dequeue q;
    queue_size = size;
    queue_free_slots = λ q. 2 ^ 32 - 1;
  };
  Immediate = λ timeout. Unit;
  IsValid = IsValid;
  capacity = λ q. q.capacity;
  item_size = λ q. q.item_size;
  contents = contents;
  zero-Immediate = tt;
  enqueue-IsValid = λ q x timeout i v e. enqueue-IsValid x v;
  dequeue-IsValid = λ q timeout i v. dequeue-IsValid v;
  enqueue_shape = λ q x timeout i. enqueue_shape q x;
  dequeue_shape = λ q timeout i. dequeue_shape q;
  enqueue_refines = λ q x timeout i v e. enqueue_refines q x v e;
  dequeue_refines = λ q timeout i v. dequeue_refines q v;
  size_refines = size_refines;
  free_slots_default = λ q. omega arith;
}
