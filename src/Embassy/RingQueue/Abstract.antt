-- ===== src/Embassy/RingQueue/Abstract.antt =====
-- The circular buffer with its representation forgotten: where the items lie, what the free slots hold,
-- and what memory follows the slots.
use libcsp_rust.Base.{
  ℕ, zero, suc, ◌+◌, ◌*◌, ◌%◌, ◌^◌, ◌≤◌, ◌<◌, List, [], ◌∷◌, ◌++◌, ◌≡◌, refl, ap, sym, ◌∙◌, arith,
  Bool, true, ◌&&◌, ◌==◌, length, length-append, length-replicate, length-read_at, replicate,
  append-nil, append_assoc,
}
use mathlib.Core.Quot
use mathlib.Core.Quot.{Quot, Quot-set}
use mathlib.Core.HLevel.{Σ_prop_path, prop→set}
use mathlib.Core.Equiv.{Iso, IsEquiv, iso_to_equiv}
use native.Mathlib.Bridge.{le_prop}
use native.Mathlib.Nat.{mod-lt}
use libcsp_rust.Fifo
use libcsp_rust.Fifo.{Item}
use libcsp_rust.Embassy.RingQueue.{Queue, new, enqueue, dequeue}
use libcsp_rust.Embassy.RingQueue.Inv.{
  IsValid, slot_in, new-IsValid, enqueue-IsValid, dequeue-IsValid,
}
use libcsp_rust.Embassy.RingQueue.Refine.{
  slots, contents, length-contents, enqueue_refines, enqueue_shape, dequeue_refines, dequeue_shape,
}

abbrev pub all_sized : ℕ → List Item → Bool
all_sized s [] = true
all_sized s (x ∷ xs) = s == length x && all_sized s xs

module _ (c s : ℕ) where
  -- The valid queues of a capacity and an item size
  abbrev pub State : Type 0
  State = (q : Queue) × IsValid q × (q.capacity ≡ c) × (q.item_size ≡ s)

  abbrev pub SameContents : State → State → Type 0
  SameContents q r = contents q.0 ≡ contents r.0

  -- What a bounded FIFO of sized items can hold
  abbrev pub Bounded : Type 0
  Bounded = (items : List Item) × ((length items ≤ c) × (all_sized s items ≡ true))

  le_set : {n m : ℕ} → IsSet (n ≤ m)
  le_set = prop→set le_prop

  Bounded_set : IsSet Bounded
  Bounded_set = hlevel (le_set)

  held_prop : (items : List Item) → IsProp ((length items ≤ c) × (all_sized s items ≡ true))
  held_prop items = hlevel (le_prop)

-- The slots of a buffer hold items of its item size.
all_sized-slots :
    (buffer : List ℕ) (c s h n : ℕ)
    → c * s ≤ length buffer
    → h < c
    → all_sized s (slots buffer c s h n) ≡ true
all_sized-slots buffer c s h zero st b = refl
all_sized-slots buffer c s h (suc n) st b =
    let first : length _ ≡ s = length-read_at buffer (h * s) s (omega (arith, slot_in h c s b)) in
    let rest = all_sized-slots buffer c s ((h + 1) % c) n st (mod-lt (h + 1) (omega arith)) in
    ground (arith, first, rest)

-- One item after another is put into a queue.
abbrev pub fill : Queue → List Item → Queue
fill q [] = q
fill q (x ∷ xs) = fill (enqueue q x).1 xs

fill-IsValid : (q : Queue) (xs : List Item) → IsValid q → IsValid (fill q xs)
fill-IsValid q [] v = v
fill-IsValid q (x ∷ xs) v = fill-IsValid (enqueue q x).1 xs (enqueue-IsValid x v)

fill-shape :
    (q : Queue) (xs : List Item)
    → ((fill q xs).capacity ≡ q.capacity) × ((fill q xs).item_size ≡ q.item_size)
fill-shape q [] = (refl, refl)
fill-shape q (x ∷ xs) =
    let (c, s) = fill-shape (enqueue q x).1 xs in let (d, t) = enqueue_shape q x in (c ∙ d, s ∙ t)

contents-enqueue :
    (q : Queue) (x : Item)
    → IsValid q
    → q.item_size ≡ length x
    → length (contents q) < q.capacity
    → contents (enqueue q x).1 ≡ contents q ++ (x ∷ [])
contents-enqueue q x v e h = ground (arith, enqueue_refines q x v e)

contents-fill :
    (q : Queue) (xs : List Item)
    → IsValid q
    → length (contents q) + length xs ≤ q.capacity
    → all_sized q.item_size xs ≡ true
    → contents (fill q xs) ≡ contents q ++ xs
contents-fill q [] v h a = sym (append-nil (contents q))
contents-fill q (x ∷ xs) v h a =
    let (d, t) = enqueue_shape q x in
    let one = contents-enqueue q x v (ground arith) (omega arith) in
    let more = length-append (contents q) (x ∷ []) in
    contents-fill (enqueue q x).1 xs (enqueue-IsValid x v) (rw (one, d) (omega (arith, more, h)))
      (rw t (ground arith))
    ∙ ap (λ l. l ++ xs) one
    ∙ append_assoc (contents q) (x ∷ []) xs

module _ (c s : ℕ) where
  abbrev pub fresh : Queue
  fresh = new (replicate (c * s) 0) c s

  stored : State c s → Bounded c s
  stored (q, v, cap, size) =
      let sized =
        all_sized-slots q.buffer q.capacity q.item_size q.head q.count v.storage v.head_in in
      (contents q, (omega (arith, length-contents q, v.count_in, cap), rw (← size) sized))

  -- The items that a state holds, oldest first, as a function of the state without its representation
  pub view : Quot (SameContents c s) → Bounded c s
  unfolding stored
  view = Quot.lift (Bounded_set c s) stored (λ q r e. Σ_prop_path (held_prop c s) e)

module _ (c s : ℕ) (a : 0 < c) (b : c < 2 ^ 32) (d : c * s < 2 ^ 32) where
  fresh-IsValid : IsValid (fresh c s)
  fresh-IsValid =
      new-IsValid (replicate (c * s) 0) c s a b d
        (omega (arith, length-replicate {A = ℕ} (c * s) 0))

  contents-filled :
      (items : List Item)
      → length items ≤ c
      → all_sized s items ≡ true
      → contents (fill (fresh c s) items) ≡ items
  unfolding new
  contents-filled items h e = contents-fill (fresh c s) items fresh-IsValid (omega (arith, h)) e

  filled : Bounded c s → State c s
  unfolding new
  filled (items, (h, e)) =
      let (cap, size) = fill-shape (fresh c s) items in
      (fill (fresh c s) items, fill-IsValid (fresh c s) items fresh-IsValid, cap, size)

  view_iso : Iso (Quot (SameContents c s)) (Bounded c s)
  unfolding view filled stored
  view_iso = record {
    fun = view c s;
    inv = λ t. Quot.mk (filled t);
    rinv = λ t. Σ_prop_path (held_prop c s) (contents-filled t.0 t.1.0 t.1.1);
    linv =
        Quot.ind (λ q. Quot-set _ _)
          (λ q. let (items, (h, e)) = stored c s q in Quot.sound (contents-filled items h e));
  }

-- The view is an equivalence between the valid states taken up to their contents and the lists of at
-- most that many items of that size.
view-IsEquiv : (c s : ℕ) → 0 < c → c < 2 ^ 32 → c * s < 2 ^ 32 → IsEquiv (view c s)
unfolding view view_iso
view-IsEquiv c s a b d = (iso_to_equiv (view_iso c s a b d)).1

-- The operations on the valid states
module _ {c s : ℕ} where
  abbrev pub put_state : State c s → (x : Item) → s ≡ length x → State c s
  put_state (q, v, cap, size) x e =
      let (d, t) = enqueue_shape q x in ((enqueue q x).1, enqueue-IsValid x v, d ∙ cap, t ∙ size)

  abbrev pub get_state : State c s → State c s
  get_state (q, v, cap, size) =
      let (d, t) = dequeue_shape q in ((dequeue q).1, dequeue-IsValid v, d ∙ cap, t ∙ size)

-- Without its representation, the circular buffer of a capacity and an item size, neither of which makes
-- an index wrap, is the bounded FIFO: the valid states taken up to their contents are equivalent to
-- the lists of at most that many items of that size, and under this equivalence `enqueue` of an item
-- of that size and `dequeue` return and leave what they return and leave on the FIFO.
pub view_refines :
    (c s : ℕ)
    → 0 < c
    → c < 2 ^ 32
    → c * s < 2 ^ 32
    → IsEquiv (view c s)
      × ((q : State c s) (x : Item) (e : s ≡ length x)
          → ((enqueue q.0 x).0, (view c s (Quot.mk (put_state q x e))).0)
            ≡ Fifo.enqueue c (view c s (Quot.mk q)).0 x)
      × ((q : State c s)
          → ((dequeue q.0).0, (view c s (Quot.mk (get_state q))).0)
            ≡ Fifo.dequeue (view c s (Quot.mk q)).0)
unfolding view stored
view_refines c s a b d = (
  view-IsEquiv c s a b d,
  (λ (q, v, cap, size) x e.
      enqueue_refines q x v (size ∙ e) ∙ ap (λ n. Fifo.enqueue n (contents q) x) cap),
  (λ (q, v, cap, size). dequeue_refines q v),
)
