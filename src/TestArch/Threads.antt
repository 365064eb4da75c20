-- ===== src/TestArch/Threads.antt =====
-- src/arch/test_arch.rs, `thread_create`: the functions of the threads stand in a map under a mutex, and
-- a thread calls its function with the map locked. A function is its address; pthread_create succeeds.
use libcsp_rust.Base.{
  ℕ, ◌+◌, ◌≡◌, sym, ◌≤◌, ◌↔◌, List, [], ◌∷◌, ◌++◌, Bool, true, false, ◌||◌, ◌==◌, Option, none,
  some, if◌then◌else◌, arith, refl, ◌∙◌,
}

-- Where a thread is: created with its argument, in its function, or at its end.
pub data Phase : Type 0 where
  created calling : ℕ → Phase
  ended : Phase

-- `locked` and `fns` are THREAD_FN_MAP.
pub record Shared : Type 0 where
  pub locked : Bool
  pub fns : List ℕ

abbrev pub has : ℕ → List ℕ → Bool
has f [] = false
has f (g ∷ fns) = f == g || has f fns

-- `thread_create`, `none` while it waits for the mutex; the new thread gets the address as its
-- argument.
unfoldable pub thread_create : ℕ → Shared → Option (Phase × Shared)
thread_create f s = if s.locked then none else some (created f, record s { fns = f ∷ s.fns })

-- `thread_wrapper`: a thread takes the mutex and calls its function, and it lets go of the mutex when
-- the function has returned. `none` while it waits.
unfoldable pub thread_wrapper : Phase → Shared → Option (Phase × Shared)
thread_wrapper (created f) s =
    if s.locked
    then none
    else (if has f s.fns then some (calling f, record s { locked = true }) else some (ended, s))
thread_wrapper (calling f) s = some (ended, record s { locked = false })
thread_wrapper ended s = none

abbrev pub World : Type 0
World = Shared × List Phase

pub data Step : World → World → Type 0 where
  creates :
      (f : ℕ) (s s' : Shared) (p : Phase) (ps : List Phase)
      → thread_create f s ≡ some (p, s')
      → Step (s, ps) (s', p ∷ ps)
  goes_on :
      (before : List Phase) (p p' : Phase) (after : List Phase) (s s' : Shared)
      → thread_wrapper p s ≡ some (p', s')
      → Step (s, before ++ (p ∷ after)) (s', before ++ (p' ∷ after))

pub data Reachable : World → Type 0 where
  starts : Reachable (record { locked = false; fns = [] }, [])
  steps : {v w : World} → Reachable v → Step v w → Reachable w

abbrev pub is_calling : Phase → ℕ
is_calling (created f) = 0
is_calling (calling f) = 1
is_calling ended = 0

abbrev pub callers : List Phase → ℕ
callers [] = 0
callers (p ∷ ps) = is_calling p + callers ps

callers-append :
    (ps : List Phase) (p : Phase) (qs : List Phase)
    → callers (ps ++ (p ∷ qs)) ≡ is_calling p + (callers ps + callers qs)
callers-append [] p qs = omega arith
callers-append (x ∷ ps) p qs = omega (arith, callers-append ps p qs)

abbrev pub Locks : World → Type 0
Locks (s, ps) = callers ps ≡ (if s.locked then 1 else 0)

create-Locks :
    (f : ℕ) (s s' : Shared) (p : Phase) (ps : List Phase)
    → thread_create f s ≡ some (p, s')
    → Locks (s, ps)
    → Locks (s', p ∷ ps)
unfolding thread_create
create-Locks f s s' p ps e h = ground (arith, e)

wrapper-Locks :
    (n : ℕ) (p p' : Phase) (s s' : Shared)
    → thread_wrapper p s ≡ some (p', s')
    → is_calling p + n ≡ (if s.locked then 1 else 0)
    → is_calling p' + n ≡ (if s'.locked then 1 else 0)
unfolding thread_wrapper
wrapper-Locks n (created f) p' s s' e h = ground (arith, e)
wrapper-Locks n (calling f) p' s s' e h = ground (arith, e)
wrapper-Locks n ended p' s s' e h = ground (arith, e)

Step-Locks : {v w : World} → Step v w → Locks v → Locks w
Step-Locks (creates f s s' p ps e) h = create-Locks f s s' p ps e h
Step-Locks (goes_on before p p' after s s' e) h =
    callers-append before p' after
    ∙ wrapper-Locks (callers before + callers after) p p' s s' e
        (sym (callers-append before p after) ∙ h)

Reachable-Locks : {w : World} → Reachable w → Locks w
Reachable-Locks starts = refl
Reachable-Locks (steps r s) = Step-Locks s (Reachable-Locks r)

-- In every reachable state at most one thread is in its function, and while one is, no thread can be
-- created and none of the others can begin, whichever function it is in.
pub one_caller :
    (s : Shared) (ps : List Phase) (f g : ℕ)
    → Reachable (s, ps)
    → (callers ps ≤ 1)
      × ((callers ps ≡ 1) ↔ ((thread_create f s ≡ none) × (thread_wrapper (created g) s ≡ none)))
unfolding thread_create thread_wrapper
one_caller s ps f g r = ground (arith, Reachable-Locks r)
