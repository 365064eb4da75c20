-- ===== src/Embassy/Mutex.antt =====
-- The mutexes of embassy-example/src/lib.rs. Every one is the same critical section: to lock it turns the
-- interrupts of the core off, to unlock it turns them on. A mutex is a number.
use libcsp_rust.Base.{
  ℕ, suc, ◌-◌, ◌<◌, ◌≡◌, List, [], ◌∷◌, ◌++◌, Bool, true, false, ◌==◌, arith, refl,
}

-- Whether interrupts are on.
pub record Core : Type 0 where
  pub interrupts : Bool

unfoldable pub mutex_lock : Core → ℕ → Bool × Core
mutex_lock core mutex = (true, record core { interrupts = false })

unfoldable pub mutex_unlock : Core → ℕ → Bool × Core
mutex_unlock core mutex = (true, record core { interrupts = true })

pub data Call : Type 0 where
  locks unlocks : ℕ → Call

unfoldable pub after : List Call → Core → Core
unfolding mutex_lock mutex_unlock
after [] core = core
after (locks mutex ∷ calls) core = after calls (mutex_lock core mutex).1
after (unlocks mutex ∷ calls) core = after calls (mutex_unlock core mutex).1

-- How many mutexes are held after the calls, of `d` before them.
abbrev pub held : ℕ → List Call → ℕ
held d [] = d
held d (locks mutex ∷ calls) = held (suc d) calls
held d (unlocks mutex ∷ calls) = held (d - 1) calls

-- No mutex is locked while one is held, and none is unlocked that is not held.
abbrev pub IsFlat : ℕ → List Call → Type 0
IsFlat d [] = Unit
IsFlat d (locks mutex ∷ calls) = (d ≡ 0) × IsFlat 1 calls
IsFlat d (unlocks mutex ∷ calls) = (d ≡ 1) × IsFlat 0 calls

abbrev pub on : Core
on = record { interrupts = true }

-- Two mutexes are locked, and the inner one is unlocked.
abbrev pub nested : ℕ → ℕ → List Call
nested outer inner = locks outer ∷ locks inner ∷ unlocks inner ∷ []

after-held :
    (d : ℕ) (calls : List Call) (core : Core)
    → IsFlat d calls
    → core.interrupts ≡ (d == 0)
    → (after calls core).interrupts ≡ (held d calls == 0)
unfolding after mutex_lock mutex_unlock
after-held d [] core f h = h
after-held d (locks mutex ∷ calls) core (z, f) h =
    rw z (after-held 1 calls (record { interrupts = false }) f refl)
after-held d (unlocks mutex ∷ calls) core (z, f) h = rw z (after-held 0 calls on f refl)

after-append : (xs ys : List Call) (core : Core) → after (xs ++ ys) core ≡ after ys (after xs core)
unfolding after
after-append [] ys core = refl
after-append (locks mutex ∷ xs) ys core = after-append xs ys (mutex_lock core mutex).1
after-append (unlocks mutex ∷ xs) ys core = after-append xs ys (mutex_unlock core mutex).1

held-append : (d : ℕ) (xs ys : List Call) → held d (xs ++ ys) ≡ held (held d xs) ys
held-append d [] ys = refl
held-append d (locks mutex ∷ xs) ys = held-append (suc d) xs ys
held-append d (unlocks mutex ∷ xs) ys = held-append (d - 1) xs ys

-- While no two mutexes are held at once, the interrupts are off exactly while one is held. A mutex that
-- is locked and unlocked inside another turns them on although the outer one is still held.
pub interrupts-held :
    (calls : List Call) (outer inner : ℕ)
    → IsFlat 0 calls
    → ((after calls on).interrupts ≡ (held 0 calls == 0))
      × ((after (calls ++ nested outer inner) on).interrupts ≡ true)
      × (0 < held 0 (calls ++ nested outer inner))
unfolding after
interrupts-held calls outer inner f = (
  after-held 0 calls on f refl,
  rw (after-append calls (nested outer inner) on) refl,
  omega (arith, held-append 0 calls (nested outer inner)),
)
