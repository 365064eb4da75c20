-- ===== src/Promisc.antt =====
-- src/promisc.rs: the handle on promiscuous mode, of which there is at most one. `open` and `drop`
-- are sequences of atomic steps, which those of other threads come between.
pub mod Unique
use libcsp_rust.Base.{ℕ, List, [], ◌∷◌, ◌++◌, Bool, true, false, Option, none, some, if◌then◌else◌}
use libcsp_rust.Base.Int.{ℤ}
use libcsp_rust.Error.{CspError, resource_in_use, Result, ok, err, csp_result}

-- Where a thread is: outside, in `open` after the swap and after a refused `csp_promisc_enable`, with
-- the handle, in `drop` after `csp_promisc_disable`. The refused one carries the error to return.
pub data Phase : Type 0 where
  idle swapped holding disabled : Phase
  refused : CspError → Phase

-- `active` is `SNIFFER_ACTIVE`; `enabled` is whether libcsp clones the packets.
pub record Shared : Type 0 where
  pub active : Bool
  pub enabled : Bool

-- What `open` returns on this step, if it returns.
abbrev pub Returned : Type 0
Returned = Option (Result (Unit {0}))

-- What `csp_result` of the enabling call leads to.
unfoldable pub enabled_as : Shared → Result (Unit {0}) → Shared × Phase × Returned
enabled_as s (ok u) = (record s { enabled = true }, holding, some (ok u))
enabled_as s (err e) = (s, refused e, none)

-- The next step of a thread; `ret` is what `csp_promisc_enable` returns if the step calls it. An idle
-- thread starts `open`, one with the handle starts `drop`.
unfoldable pub step : ℤ → Shared → Phase → Shared × Phase × Returned
unfolding enabled_as csp_result
step ret s idle =
    if s.active
    then (s, idle, some (err resource_in_use))
    else (record s { active = true }, swapped, none)
step ret s swapped = enabled_as s (csp_result ret)
step ret s (refused e) = (record s { active = false }, idle, some (err e))
step ret s holding = (record s { enabled = false }, disabled, none)
step ret s disabled = (record s { active = false }, idle, none)

-- The shared state and the threads.
abbrev pub World : Type 0
World = Shared × List Phase

-- One thread takes one step.
pub data Step : World → World → Type 0 where
  takes :
      (before : List Phase) (p : Phase) (after : List Phase) (s : Shared) (ret : ℤ)
      → Step (s, before ++ (p ∷ after)) ((step ret s p).0, before ++ ((step ret s p).1 ∷ after))

abbrev pub idles : List (Unit {0}) → List Phase
idles [] = []
idles (u ∷ n) = idle ∷ idles n

pub data Reachable : World → Type 0 where
  starts : (n : List (Unit {0})) → Reachable (record { active = false; enabled = false }, idles n)
  goes_on : {v w : World} → Reachable v → Step v w → Reachable w
