-- ===== src/Fifo.antt =====
-- What the queue methods of `trait CspArch` (src/arch.rs) promise, with no storage: a bounded FIFO
-- of byte items, and the interface by which the C entry points see a backend.
use libcsp_rust.Base.{
  ℕ, List, [], ◌∷◌, ◌++◌, Bool, true, false, Option, none, some, ◌≡◌, ◌≤◌, ◌^◌, ltb, if◌then◌else◌,
  length,
}

abbrev pub Item : Type 0
Item = List ℕ

-- A full queue refuses the item, and is not changed.
abbrev pub enqueue : ℕ → List Item → Item → Bool × List Item
enqueue capacity items x =
    if ltb (length items) capacity then (true, items ++ (x ∷ [])) else (false, items)

-- An empty queue gives nothing.
abbrev pub dequeue : List Item → Option Item × List Item
dequeue [] = (none, [])
dequeue (x ∷ items) = (some x, items)

-- A backend's queue methods. The numbers behind the item and behind the queue are timeouts, in
-- milliseconds. A call that does not return has no place here.
pub record QueueMethods : Type 1 where
  pub Queue : Type 0
  pub queue_enqueue : Queue → Item → ℕ → Bool × Queue
  pub queue_dequeue : Queue → ℕ → Option Item × Queue
  pub queue_size : Queue → ℕ
  pub queue_free_slots : Queue → ℕ

-- The methods with the proof that on a valid queue they are those of the abstract FIFO, with every
-- timeout that is `Immediate`: 0, for a backend whose calls may wait. The backend keeps the
-- trait's `queue_free_slots`, the largest `usize`.
pub record QueueArch : Type 1 where
  pub methods : QueueMethods
  pub Immediate : ℕ → Type 0
  pub IsValid : methods.Queue → Type 0
  pub capacity : methods.Queue → ℕ
  pub item_size : methods.Queue → ℕ
  pub contents : methods.Queue → List Item
  pub zero-Immediate : Immediate 0
  pub enqueue-IsValid :
      (q : methods.Queue) (x : Item) (timeout : ℕ)
      → Immediate timeout
      → IsValid q
      → item_size q ≡ length x
      → IsValid (methods.queue_enqueue q x timeout).1
  pub dequeue-IsValid :
      (q : methods.Queue) (timeout : ℕ)
      → Immediate timeout
      → IsValid q
      → IsValid (methods.queue_dequeue q timeout).1
  pub enqueue_shape :
      (q : methods.Queue) (x : Item) (timeout : ℕ)
      → Immediate timeout
      → (capacity (methods.queue_enqueue q x timeout).1 ≡ capacity q)
        × (item_size (methods.queue_enqueue q x timeout).1 ≡ item_size q)
  pub dequeue_shape :
      (q : methods.Queue) (timeout : ℕ)
      → Immediate timeout
      → (capacity (methods.queue_dequeue q timeout).1 ≡ capacity q)
        × (item_size (methods.queue_dequeue q timeout).1 ≡ item_size q)
  pub enqueue_refines :
      (q : methods.Queue) (x : Item) (timeout : ℕ)
      → Immediate timeout
      → IsValid q
      → item_size q ≡ length x
      → let (done, q') = methods.queue_enqueue q x timeout in
        (done, contents q') ≡ enqueue (capacity q) (contents q) x
  pub dequeue_refines :
      (q : methods.Queue) (timeout : ℕ)
      → Immediate timeout
      → IsValid q
      → let (out, q') = methods.queue_dequeue q timeout in (out, contents q') ≡ dequeue (contents q)
  pub size_refines : (q : methods.Queue) → IsValid q → methods.queue_size q ≡ length (contents q)
  pub free_slots_default : (q : methods.Queue) → 2 ^ 31 ≤ methods.queue_free_slots q
