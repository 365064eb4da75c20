-- ===== src/TestArch/Queue.antt =====
-- The queue methods of `TestArch` (src/arch/test_arch.rs). A wait on a condition variable gives the
-- lock away: what other threads leave behind, and how the wait ended, comes as a list of rounds.
pub mod Blocking
pub mod Refine
use libcsp_rust.Base.{
  ℕ, ◌+◌, ◌-◌, ◌^◌, List, [], ◌∷◌, ◌++◌, Bool, true, false, not, Option, none, some, ltb, leb, ◌==◌,
  if◌then◌else◌, length, take, write_at, min,
}
use libcsp_rust.Fifo.{Item}

pub record TestQueue : Type 0 where
  pub data' : List Item
  pub max_len : ℕ
  pub item_size : ℕ

-- One turn of a waiting loop: whether the deadline had passed, the queue's data when the wait
-- returned, and whether the wait timed out.
pub record Round : Type 0 where
  pub late : Bool
  pub seen : List Item
  pub timed_out : Bool

-- How a waiting loop ended, with the data under the lock; `waiting` if the rounds are used up.
pub data Waited : Type 0 where
  ready : List Item → Waited
  gave_up : List Item → Waited
  waiting : Waited

-- How a call ended, with the queue it leaves behind its handle.
pub data Outcome {ℓ} (A : Type ℓ) : Type ℓ where
  returned : A → Option TestQueue → Outcome A
  blocked : Outcome A

abbrev pub wait_forever : ℕ
wait_forever = 2 ^ 32 - 1

unfoldable pub queue_create : ℕ → ℕ → Option TestQueue
queue_create length' item_size =
    some (record { data' = []; max_len = length'; item_size = item_size })

-- The loop of an infinite wait.
unfoldable pub wait_infinite : (List Item → Bool) → List Item → List Round → Waited
wait_infinite stuck d [] = if stuck d then waiting else ready d
wait_infinite stuck d (r ∷ rounds) =
    let rest = wait_infinite stuck r.seen rounds in if stuck d then rest else ready d

-- The loop of a wait with a deadline.
unfoldable pub wait_deadline : (List Item → Bool) → List Item → List Round → Waited
wait_deadline stuck d [] = if stuck d then waiting else ready d
wait_deadline stuck d (r ∷ rounds) =
    let rest = wait_deadline stuck r.seen rounds in
    let turn : Waited =
      if r.late then gave_up d else (if r.timed_out then gave_up r.seen else rest) in
    if stuck d then turn else ready d

unfoldable pub wait_room : (List Item → Bool) → ℕ → List Item → List Round → Waited
unfolding wait_infinite wait_deadline
wait_room stuck timeout d rounds =
    if timeout == wait_forever
    then wait_infinite stuck d rounds
    else (if ltb 0 timeout
        then wait_deadline stuck d rounds
        else (if stuck d then gave_up d else ready d))

abbrev pub is_full : ℕ → List Item → Bool
is_full max_len d = leb max_len (length d)

abbrev pub is_empty : List Item → Bool
is_empty [] = true
is_empty (x ∷ d) = false

unfoldable pub push_back : TestQueue → Item → Waited → Outcome Bool
push_back q item (ready d) =
    returned true (some (record q { data' = d ++ (take q.item_size item ∷ []) }))
push_back q item (gave_up d) = returned false (some (record q { data' = d }))
push_back q item waiting = blocked

-- The null handle and the null item are `none`; the item is the memory behind its pointer.
unfoldable pub queue_enqueue : Option TestQueue → Option Item → ℕ → List Round → Outcome Bool
unfolding wait_room push_back
queue_enqueue none item timeout rounds = returned false none
queue_enqueue (some q) none timeout rounds = returned false (some q)
queue_enqueue (some q) (some item) timeout rounds =
    push_back q item (wait_room (is_full q.max_len) timeout q.data' rounds)

-- The Boolean stands beside the memory behind the pointer `item` after the copy.
unfoldable pub pop_front : TestQueue → Item → Waited → Outcome (Bool × Option Item)
pop_front q item (ready []) = returned (false, some item) (some (record q { data' = [] }))
pop_front q item (ready (x ∷ d)) =
    returned (true, some (write_at item 0 (take (min (length x) q.item_size) x)))
      (some (record q { data' = d }))
pop_front q item (gave_up d) = returned (false, some item) (some (record q { data' = d }))
pop_front q item waiting = blocked

unfoldable pub queue_dequeue :
    Option TestQueue → Option Item → ℕ → List Round → Outcome (Bool × Option Item)
unfolding wait_room pop_front
queue_dequeue none item timeout rounds = returned (false, item) none
queue_dequeue (some q) none timeout rounds = returned (false, none) (some q)
queue_dequeue (some q) (some item) timeout rounds =
    pop_front q item (wait_room is_empty timeout q.data' rounds)

unfoldable pub queue_size : Option TestQueue → ℕ
queue_size none = 0
queue_size (some q) = length q.data'
