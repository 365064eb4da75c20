-- ===== src/TestArch/Queue/Refine.antt =====
-- Without waiting, the queue of src/arch/test_arch.rs is the bounded FIFO, also by way of the C entry
-- points of src/arch.rs.
use libcsp_rust.Base.{
  ℕ, ◌≤◌, List, [], ◌∷◌, ◌++◌, ◌≡◌, refl, arith, ap, sym, Bool, true, false, Option, none, some,
  length, All, All-append, length-append, take, take_all, replicate, write_at, length-replicate,
  write_at-zero, drop_all, append-nil, if◌then◌else◌, ltb, min, Bool-cases, inl, inr,
}
use libcsp_rust.Base.{◌-◌, ◌^◌}
use libcsp_rust.Fifo
use libcsp_rust.Fifo.{Item, QueueArch}
use libcsp_rust.TestArch.Queue.{
  TestQueue, returned, blocked, Outcome, queue_enqueue, queue_dequeue, queue_size,
}

pub record IsValid (q : TestQueue) : Type 0 where
  pub bounded : length q.data' ≤ q.max_len
  pub sized : All (λ (x : Item). length x ≡ q.item_size) q.data'

-- A call on a live handle while no other thread acts, as a step on the state. With timeout 0 `blocked`
-- and a lost handle do not occur; they would leave the queue alone.
abbrev outcome_enqueue : TestQueue → Outcome Bool → Bool × TestQueue
outcome_enqueue q (returned b (some q')) = (b, q')
outcome_enqueue q (returned b none) = (b, q)
outcome_enqueue q blocked = (false, q)

unfoldable pub enqueue : TestQueue → Item → ℕ → Bool × TestQueue
unfolding queue_enqueue
enqueue q x timeout = outcome_enqueue q (queue_enqueue (some q) (some x) timeout [])

abbrev outcome_dequeue : TestQueue → Outcome (Bool × Option Item) → Option Item × TestQueue
outcome_dequeue q (returned (true, out) (some q')) = (out, q')
outcome_dequeue q (returned (false, out) (some q')) = (none, q')
outcome_dequeue q (returned r none) = (none, q)
outcome_dequeue q blocked = (none, q)

-- The caller's memory is `item_size` bytes.
unfoldable pub dequeue : TestQueue → ℕ → Option Item × TestQueue
unfolding queue_dequeue
dequeue q timeout =
    outcome_dequeue q (queue_dequeue (some q) (some (replicate q.item_size 0)) timeout [])

enqueue_step :
    (q : TestQueue) (x : Item)
    → enqueue q x 0 ≡ (
        if ltb (length q.data') q.max_len
        then (true, record q { data' = q.data' ++ (take q.item_size x ∷ []) })
        else (false, q))
unfolding enqueue
enqueue_step q x = ground arith

-- Copying an item over memory of its own length replaces the memory.
write_item :
    (n : ℕ) (out x : Item)
    → length out ≡ n
    → length x ≡ n
    → write_at out 0 (take (min (length x) n) x) ≡ x
write_item n out x o e =
    rw
      (
        take_all (min (length x) n) x (omega arith),
        write_at-zero out x (omega arith),
        drop_all (length x) out (omega arith),
      )
      (append-nil x)

-- `dequeue` at a queue given by its fields.
dequeue_refines_at :
    (d : List Item) (m s : ℕ)
    → All (λ (x : Item). length x ≡ s) d
    → dequeue (record { data' = d; max_len = m; item_size = s }) 0
      ≡ ((Fifo.dequeue d).0, record { data' = (Fifo.dequeue d).1; max_len = m; item_size = s })
unfolding dequeue
dequeue_refines_at [] m s h = refl
dequeue_refines_at (x ∷ d) m s h =
    ap (λ y. (some y, record { data' = d; max_len = m; item_size = s }))
      (write_item s (replicate s 0) x (length-replicate s 0) h.0)

pub try_enqueue-IsValid :
    (q : TestQueue) (x : Item) → IsValid q → q.item_size ≡ length x → IsValid (enqueue q x 0).1
try_enqueue-IsValid q x v e = elim (Bool-cases (ltb (length q.data') q.max_len)) [
  | inl room ↦
      rw (enqueue_step q x, room)
        (record {
          bounded = ground (arith, length-append q.data' (take q.item_size x ∷ []));
          sized =
              All-append (λ (y : Item). length y ≡ q.item_size) q.data' (take q.item_size x ∷ [])
                v.sized (rw (take_all q.item_size x (omega arith)) (sym e), tt);
        })
  | inr full ↦ rw (enqueue_step q x, full) v
]

pub try_dequeue-IsValid : (q : TestQueue) → IsValid q → IsValid (dequeue q 0).1
try_dequeue-IsValid q v =
    rw (dequeue_refines_at q.data' q.max_len q.item_size v.sized)
      (keeps q.data' q.max_len q.item_size v.bounded v.sized)
  where
    keeps :
        (d : List Item) (m s : ℕ)
        → length d ≤ m
        → All (λ (x : Item). length x ≡ s) d
        → IsValid (record { data' = (Fifo.dequeue d).1; max_len = m; item_size = s })
    keeps [] m s b h = record { bounded = b; sized = h }
    keeps (x ∷ d) m s b h = record { bounded = omega arith; sized = h.1 }

-- An enqueue with timeout 0 is that of the FIFO.
pub try_enqueue_refines :
    (q : TestQueue) (x : Item)
    → IsValid q
    → q.item_size ≡ length x
    → let (done, q') = enqueue q x 0 in (done, q'.data') ≡ Fifo.enqueue q.max_len q.data' x
try_enqueue_refines q x v e = ground (arith, enqueue_step q x, take_all q.item_size x)

-- A dequeue with timeout 0 is that of the FIFO.
pub try_dequeue_refines :
    (q : TestQueue)
    → IsValid q
    → let (out, q') = dequeue q 0 in (out, q'.data') ≡ Fifo.dequeue q.data'
try_dequeue_refines q v =
    ap (λ (r : Option Item × TestQueue). (r.0, r.1.data'))
      (dequeue_refines_at q.data' q.max_len q.item_size v.sized)

pub enqueue_shape :
    (q : TestQueue) (x : Item)
    → ((enqueue q x 0).1.max_len ≡ q.max_len) × ((enqueue q x 0).1.item_size ≡ q.item_size)
enqueue_shape q x = ground (arith, enqueue_step q x)

pub dequeue_shape :
    (q : TestQueue)
    → ((dequeue q 0).1.max_len ≡ q.max_len) × ((dequeue q 0).1.item_size ≡ q.item_size)
unfolding dequeue
dequeue_shape q = shape q.data' q.max_len q.item_size
  where
    shape :
        (d : List Item) (m s : ℕ)
        → let q' = (dequeue (record { data' = d; max_len = m; item_size = s }) 0).1 in
          (q'.max_len ≡ m) × (q'.item_size ≡ s)
    shape [] m s = (refl, refl)
    shape (x ∷ d) m s = (refl, refl)

unfoldable pub size : TestQueue → ℕ
unfolding queue_size
size q = queue_size (some q)

pub size_refines : (q : TestQueue) → IsValid q → size q ≡ length q.data'
unfolding size
size_refines q v = refl

-- The hosted queue is a backend of the queue interface.
abbrev pub test_arch : QueueArch
test_arch = record {
  methods = record {
    Queue = TestQueue;
    queue_enqueue = enqueue;
    queue_dequeue = dequeue;
    queue_size = size;
    queue_free_slots = λ q. 2 ^ 64 - 1;
  };
  Immediate = λ timeout. timeout ≡ 0;
  IsValid = IsValid;
  capacity = λ q. q.max_len;
  item_size = λ q. q.item_size;
  contents = λ q. q.data';
  zero-Immediate = refl;
  enqueue-IsValid = λ q x timeout i v e. rw i (try_enqueue-IsValid q x v e);
  dequeue-IsValid = λ q timeout i v. rw i (try_dequeue-IsValid q v);
  enqueue_shape = λ q x timeout i. rw i (enqueue_shape q x);
  dequeue_shape = λ q timeout i. rw i (dequeue_shape q);
  enqueue_refines = λ q x timeout i v e. rw i (try_enqueue_refines q x v e);
  dequeue_refines = λ q timeout i v. rw i (try_dequeue_refines q v);
  size_refines = size_refines;
  free_slots_default = λ q. omega arith;
}
