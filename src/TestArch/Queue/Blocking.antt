-- ===== src/TestArch/Queue/Blocking.antt =====
-- Calls that wait: what they may return, for any timeout and any behaviour of the other threads
-- that keeps the bound.
use libcsp_rust.Base.{
  ℕ, ◌≤◌, ◌<◌, List, [], ◌∷◌, ◌++◌, ◌≡◌, ◌≢◌, refl, arith, Bool, true, false, Option, none, some,
  length, All, take, write_at, min, ap, sym, ◌∙◌, zero, suc, ◌⊎◌, Bool-cases, inl, inr, ◌==◌,
}
use libcsp_rust.Fifo.{Item}
use libcsp_rust.TestArch.Queue.{
  TestQueue, Round, Waited, ready, gave_up, waiting, Outcome, returned, blocked, wait_infinite,
  wait_deadline, wait_room, is_full, is_empty, push_back, pop_front, queue_enqueue, queue_dequeue,
  wait_forever,
}

-- The loop ended by its test, or gave up, on data that was there at some turn.
module _ (stuck : List Item → Bool) where
  abbrev pub Fine : (List Item → Type 0) → Waited → Type 0
  Fine P (ready d) = P d × (stuck d ≡ false)
  Fine P (gave_up d) = P d
  Fine P waiting = Unit

  pub wait_infinite-Fine :
      (P : List Item → Type 0) (d : List Item) (rounds : List Round)
      → P d
      → All (λ (r : Round). P r.seen) rounds
      → Fine P (wait_infinite stuck d rounds)
  unfolding wait_infinite
  wait_infinite-Fine P d [] p h = ground arith
  wait_infinite-Fine P d (r ∷ rounds) p h =
      ground (arith, wait_infinite-Fine P r.seen rounds h.0 h.1)

  pub wait_deadline-Fine :
      (P : List Item → Type 0) (d : List Item) (rounds : List Round)
      → P d
      → All (λ (r : Round). P r.seen) rounds
      → Fine P (wait_deadline stuck d rounds)
  unfolding wait_deadline
  wait_deadline-Fine P d [] p h = ground arith
  wait_deadline-Fine P d (r ∷ rounds) p h =
      ground (arith, wait_deadline-Fine P r.seen rounds h.0 h.1)

  pub wait_room-Fine :
      (P : List Item → Type 0) (timeout : ℕ) (d : List Item) (rounds : List Round)
      → P d
      → All (λ (r : Round). P r.seen) rounds
      → Fine P (wait_room stuck timeout d rounds)
  unfolding wait_room
  wait_room-Fine P timeout d rounds p h =
      ground (arith, wait_infinite-Fine P d rounds p h, wait_deadline-Fine P d rounds p h)

  -- An infinite wait does not give up.
  pub wait_infinite-ne-gave_up :
      (d e : List Item) (rounds : List Round) → wait_infinite stuck d rounds ≢ gave_up e
  unfolding wait_infinite
  wait_infinite-ne-gave_up d e [] h = ground arith
  wait_infinite-ne-gave_up d e (r ∷ rounds) h =
      ground (arith, wait_infinite-ne-gave_up r.seen e rounds)

  wait_infinite_ready :
      (d : List Item) (rounds : List Round)
      → stuck d ≡ false
      → wait_infinite stuck d rounds ≡ ready d
  unfolding wait_infinite
  wait_infinite_ready d [] h = ground arith
  wait_infinite_ready d (r ∷ rounds) h = ground arith

  -- An infinite wait ends as soon as a turn sees its test fail.
  pub wait_infinite_ends :
      (d : List Item) (before : List Round) (r : Round) (after : List Round)
      → stuck r.seen ≡ false
      → (e : List Item) × (wait_infinite stuck d (before ++ (r ∷ after)) ≡ ready e)
  unfolding wait_infinite
  wait_infinite_ends d [] r after h = elim (Bool-cases (stuck d)) [
    | inl s ↦ (r.seen, rw (s, wait_infinite) (wait_infinite_ready r.seen after h))
    | inr s ↦ (d, rw (s, wait_infinite))
  ]
  wait_infinite_ends d (b ∷ before) r after h = elim (Bool-cases (stuck d)) [
    | inl s ↦
        let (e, p) = wait_infinite_ends b.seen before r after h in (e, rw (s, wait_infinite) p)
    | inr s ↦ (d, rw (s, wait_infinite))
  ]

-- `d` is the data that the call found, or that it saw at one of its turns.
abbrev pub Seen : List Item → List Round → List Item → Type 0
Seen found [] d = d ≡ found
Seen found (r ∷ rounds) d = (d ≡ found) ⊎ Seen r.seen rounds d

Seen-found : (found : List Item) (rounds : List Round) → Seen found rounds found
Seen-found found [] = refl
Seen-found found (r ∷ rounds) = inl refl

-- `d` was seen and keeps the bound.
abbrev pub Kept : TestQueue → List Round → List Item → Type 0
Kept q rounds d = Seen q.data' rounds d × (length d ≤ q.max_len)

All-map :
    (P Q : List Item → Type 0) (rounds : List Round)
    → ((d : List Item) → P d → Q d)
    → All (λ (r : Round). P r.seen) rounds
    → All (λ (r : Round). Q r.seen) rounds
All-map P Q [] f h = tt
All-map P Q (r ∷ rounds) f (p, h) = (f r.seen p, All-map P Q rounds f h)

rounds-Seen :
    (bound : ℕ) (found : List Item) (rounds : List Round)
    → All (λ (r : Round). length r.seen ≤ bound) rounds
    → All (λ (r : Round). Seen found rounds r.seen × (length r.seen ≤ bound)) rounds
rounds-Seen bound found [] h = tt
rounds-Seen bound found (r ∷ rounds) (b, h) = (
  (inr (Seen-found r.seen rounds), b),
  All-map (λ d. Seen r.seen rounds d × (length d ≤ bound))
      (λ d. Seen found (r ∷ rounds) d × (length d ≤ bound)) rounds (λ d (s, l). (inr s, l))
      (rounds-Seen bound r.seen rounds h),
)

-- What an enqueue of the item `x` may come to: the item stands behind data that was seen with room
-- for it, or data that was seen stays as it is.
abbrev pub Enqueued : TestQueue → List Round → ℕ → Item → Outcome Bool → Type 0
Enqueued q rounds timeout x (returned true none) = ⊥
Enqueued q rounds timeout x (returned true (some q')) =
    (d : List Item) × Seen q.data' rounds d
    × (length d < q.max_len)
    × (q' ≡ record q { data' = d ++ (x ∷ []) })
Enqueued q rounds timeout x (returned false none) = ⊥
Enqueued q rounds timeout x (returned false (some q')) =
    (timeout ≢ wait_forever) × ((d : List Item) × Kept q rounds d × (q' ≡ record q { data' = d }))
Enqueued q rounds timeout x blocked = Unit

push_back-Enqueued :
    (q : TestQueue) (rounds : List Round) (timeout : ℕ) (item : Item) (w : Waited)
    → Fine (is_full q.max_len) (Kept q rounds) w
    → ((d : List Item) → w ≡ gave_up d → timeout ≢ wait_forever)
    → Enqueued q rounds timeout (take q.item_size item) (push_back q item w)
unfolding push_back
push_back-Enqueued q rounds timeout item (ready d) f g = (d, f.0.0, ground arith, refl)
push_back-Enqueued q rounds timeout item (gave_up d) f g = (g d refl, (d, f, refl))
push_back-Enqueued q rounds timeout item waiting f g = tt

wait_room-gave_up :
    (stuck : List Item → Bool) (timeout : ℕ) (d e : List Item) (rounds : List Round)
    → wait_room stuck timeout d rounds ≡ gave_up e
    → timeout ≢ wait_forever
unfolding wait_room
wait_room-gave_up stuck timeout d e rounds h = λ t. elim (Bool-cases (timeout == wait_forever)) [
  | inl s ↦ wait_infinite-ne-gave_up stuck d e rounds (rw s at h)
  | inr s ↦ ground arith
]

-- If the other threads keep the queue within its bound, then for any timeout: an enqueue that
-- returns true has put its item behind all the data that it found, or saw at one of its turns, with
-- room for it; one that returns false had a timeout other than forever and leaves the data that it
-- found or saw at a turn, within the bound; and neither loses the queue.
pub queue_enqueue-Enqueued :
    (q : TestQueue) (item : Item) (timeout : ℕ) (rounds : List Round)
    → length q.data' ≤ q.max_len
    → All (λ (r : Round). length r.seen ≤ q.max_len) rounds
    → Enqueued q rounds timeout
        (take q.item_size item)
        (queue_enqueue (some q) (some item) timeout rounds)
unfolding queue_enqueue
queue_enqueue-Enqueued q item timeout rounds b h =
    let full = is_full q.max_len in
    push_back-Enqueued q rounds timeout item (wait_room full timeout q.data' rounds)
      (wait_room-Fine full (Kept q rounds) timeout q.data' rounds (Seen-found q.data' rounds, b)
        (rounds-Seen q.max_len q.data' rounds h))
      (λ e. wait_room-gave_up full timeout q.data' e rounds)

-- What a dequeue into the memory `out` may come to.
abbrev pub Dequeued : TestQueue → List Round → ℕ → Item → Outcome (Bool × Option Item) → Type 0
Dequeued q rounds timeout out (returned r none) = ⊥
Dequeued q rounds timeout out (returned (true, none) (some q')) = ⊥
Dequeued q rounds timeout out (returned (true, some got) (some q')) =
    (x : Item) × (d : List Item) × Kept q rounds (x ∷ d)
    × (got ≡ write_at out 0 (take q.item_size x))
    × (q' ≡ record q { data' = d })
Dequeued q rounds timeout out (returned (false, got) (some q')) =
    (timeout ≢ wait_forever)
    × (got ≡ some out)
    × ((d : List Item) × Kept q rounds d × (q' ≡ record q { data' = d }))
Dequeued q rounds timeout out blocked = Unit

take-nil {ℓ} : (A : Type ℓ) (n : ℕ) → take {A = A} n [] ≡ []
take-nil A zero = refl
take-nil A (suc n) = refl

take-min {ℓ} : {A : Type ℓ} (n : ℕ) (xs : List A) → take (min (length xs) n) xs ≡ take n xs
take-min {A} n [] = take-nil A (min 0 n) ∙ sym (take-nil A n)
take-min zero (x ∷ xs) = cut (min (suc (length xs)) 0) (omega arith)
  where
    cut : (k : ℕ) → k ≡ 0 → take k (x ∷ xs) ≡ []
    cut zero e = refl
    cut (suc k) e = absurd (omega arith)
take-min (suc n) (x ∷ xs) =
    let e : min (suc (length xs)) (suc n) ≡ suc (min (length xs) n) = omega arith in
    ap (λ k. take k (x ∷ xs)) e ∙ ap (λ t. x ∷ t) (take-min n xs)

pop_front-Dequeued :
    (q : TestQueue) (rounds : List Round) (timeout : ℕ) (out : Item) (w : Waited)
    → Fine is_empty (Kept q rounds) w
    → ((d : List Item) → w ≡ gave_up d → timeout ≢ wait_forever)
    → Dequeued q rounds timeout out (pop_front q out w)
unfolding pop_front
pop_front-Dequeued q rounds timeout out (ready []) f g = cc
pop_front-Dequeued q rounds timeout out (ready (x ∷ d)) f g =
    (x, d, f.0, ap (write_at out 0) (take-min q.item_size x), refl)
pop_front-Dequeued q rounds timeout out (gave_up d) f g = (g d refl, refl, (d, f, refl))
pop_front-Dequeued q rounds timeout out waiting f g = tt

-- If the other threads keep the queue within its bound, then for any timeout: a dequeue that
-- returns true has taken the first item of the data that it found, or saw at one of its turns, left
-- the others as they were and copied the first `item_size` bytes of the item over `out`; one that
-- returns false had a timeout other than forever, wrote nothing and leaves the data that it found or
-- saw at a turn, within the bound; and neither loses the queue.
pub queue_dequeue-Dequeued :
    (q : TestQueue) (out : Item) (timeout : ℕ) (rounds : List Round)
    → length q.data' ≤ q.max_len
    → All (λ (r : Round). length r.seen ≤ q.max_len) rounds
    → Dequeued q rounds timeout out (queue_dequeue (some q) (some out) timeout rounds)
unfolding queue_dequeue
queue_dequeue-Dequeued q out timeout rounds b h =
    pop_front-Dequeued q rounds timeout out (wait_room is_empty timeout q.data' rounds)
      (wait_room-Fine is_empty (Kept q rounds) timeout q.data' rounds (Seen-found q.data' rounds, b)
        (rounds-Seen q.max_len q.data' rounds h))
      (λ e. wait_room-gave_up is_empty timeout q.data' e rounds)

-- An enqueue that waits forever returns true once some turn sees room.
pub queue_enqueue_ends :
    (q : TestQueue) (item : Item) (before : List Round) (r : Round) (after : List Round)
    → length r.seen < q.max_len
    → (q' : TestQueue) × (queue_enqueue (some q) (some item) wait_forever (before ++ (r ∷ after))
        ≡ returned true (some q'))
unfolding queue_enqueue wait_room push_back
queue_enqueue_ends q item before r after h =
    let (d, e) = wait_infinite_ends (is_full q.max_len) q.data' before r after (ground arith) in
    (record q { data' = d ++ (take q.item_size item ∷ []) }, rw e refl)
