-- ===== src/TestArch/Handles/Balance.antt =====
-- What creating and removing a mutex or a semaphore of src/arch/test_arch.rs does to libc's memory.
use libcsp_rust.Base.{
  ℕ, ◌+◌, ◌≡◌, ◌⊎◌, inl, inr, List, ◌∷◌, Bool, true, false, Option, none, some, refl, Bool-cases,
  ◌∙◌,
}
use libcsp_rust.Base.Int.{pos}
use libcsp_rust.Base.Places.{has, remove}
use libcsp_rust.Arch.Handles.{
  free-none, free-first, destroy-first, bind-some, bind-none, stored, Memory, M, pure, ◌>>=◌, ◌>>◌,
  free, destroy, csp_bin_sem_create, csp_bin_sem_remove, csp_mutex_create, csp_mutex_remove,
}
use libcsp_rust.TestArch.Handles.{
  Answers, Layout, parts, initialised, initialised_parts, mutex_create, create_posix, create_macos,
  mutex_remove, remove_posix, remove_macos, Kind, mutex, posix_semaphore, macos_semaphore,
  methods_of, csp_create, csp_remove, IsFree, Balanced,
}

destroy-none :
    (at : ℕ) (next : M (Unit {0})) (w : Memory)
    → ((objects : List ℕ) → next (record w { objects = objects }) ≡ none)
    → (destroy at >> next) w ≡ none
destroy-none at next w n = elim (Bool-cases (has at w.objects)) [
  | inl e ↦ bind-some (destroy at) (λ u. next) w _ tt (rw e refl) ∙ n (remove at w.objects)
  | inr e ↦ bind-none (destroy at) (λ u. next) w (rw e refl)
]

-- A handle whose block is not live
removed_again :
    (k : Kind) (a : Answers) (at : Layout) (p : ℕ) (w : Memory)
    → has p w.blocks ≡ false
    → (methods_of k a at).remove_handle (some p) w ≡ none
unfolding mutex_remove remove_posix remove_macos parts
removed_again mutex a at p w f = destroy-none p (free p) w (λ o. free-none p _ f)
removed_again posix_semaphore a at p w f = destroy-none p (free p) w (λ o. free-none p _ f)
removed_again macos_semaphore a at p w f =
    destroy-none (p + at.cond_at) (destroy p >> free p) w
      (λ o. destroy-none p (free p) (record w { objects = o }) (λ o'. free-none p _ f))

abbrev holding : List ℕ → List ℕ → Memory
holding blocks objects = record { blocks = blocks; objects = objects }

destroy_free-first :
    (p : ℕ) (blocks objects : List ℕ)
    → (destroy p >> free p) (record { blocks = p ∷ blocks; objects = p ∷ objects })
      ≡ some (tt, record { blocks = blocks; objects = objects })
destroy_free-first p blocks objects =
    bind-some (destroy p) (λ u. free p) (holding (p ∷ blocks) (p ∷ objects))
      (holding (p ∷ blocks) objects) tt (destroy-first p (p ∷ blocks) objects)
    ∙ free-first p blocks objects

-- What a creation comes to, by the backend's methods
abbrev Made : Kind → Answers → Layout → Memory → Type 0
Made k a at w =
    let object = methods_of k a at in
    (object.create w ≡ some (none, w))
    ⊎ ((p : ℕ) × (w' : Memory) × (object.create w ≡ some (some p, w'))
        × (object.remove_handle (some p) w' ≡ some (tt, w))
        × (object.remove_handle (some p) w ≡ none))

made :
    (k : Kind) (block : Option ℕ) (m c s : Bool) (at : Layout) (w : Memory)
    → IsFree block w
    → Made k (record { block = block; mutex_ok = m; cond_ok = c; sem_ok = s }) at w
unfolding mutex_create create_posix create_macos mutex_remove remove_posix remove_macos initialised
    initialised_parts parts
made mutex none m c s at w f = inl refl
made posix_semaphore none m c s at w f = inl refl
made macos_semaphore none m c s at w f = inl refl
made mutex (some p) false c s at w f = inl (
    bind-some (free p) (λ u. pure none) (holding (p ∷ w.blocks) w.objects) w tt
      (free-first p w.blocks w.objects))
made posix_semaphore (some p) m c false at w f = inl (
    bind-some (free p) (λ u. pure none) (holding (p ∷ w.blocks) w.objects) w tt
      (free-first p w.blocks w.objects))
made macos_semaphore (some p) false c s at w f = inl (
    bind-some (free p) (λ u. pure none) (holding (p ∷ w.blocks) w.objects) w tt
      (free-first p w.blocks w.objects))
made macos_semaphore (some p) true false s at w f = inl (
    bind-some (destroy p) (λ u. free p >> pure none) (holding (p ∷ w.blocks) (p ∷ w.objects))
      (holding (p ∷ w.blocks) w.objects) tt (destroy-first p (p ∷ w.blocks) w.objects)
    ∙ bind-some (free p) (λ u. pure none) (holding (p ∷ w.blocks) w.objects) w tt
        (free-first p w.blocks w.objects))
made mutex (some p) true c s at w f = inr (
  p,
  holding (p ∷ w.blocks) (p ∷ w.objects),
  refl,
  destroy_free-first p w.blocks w.objects,
  removed_again mutex (record { block = some p; mutex_ok = true; cond_ok = c; sem_ok = s }) at p w
      f,
)
made posix_semaphore (some p) m c true at w f = inr (
  p,
  holding (p ∷ w.blocks) (p ∷ w.objects),
  refl,
  destroy_free-first p w.blocks w.objects,
  removed_again posix_semaphore
      (record { block = some p; mutex_ok = m; cond_ok = c; sem_ok = true }) at p w f,
)
made macos_semaphore (some p) true true s at w f = inr (
  p,
  holding (p ∷ w.blocks) ((p + at.cond_at) ∷ p ∷ w.objects),
  refl,
  bind-some (destroy (p + at.cond_at)) (λ u. destroy p >> free p)
        (holding (p ∷ w.blocks) ((p + at.cond_at) ∷ p ∷ w.objects))
        (holding (p ∷ w.blocks) (p ∷ w.objects)) tt
        (destroy-first (p + at.cond_at) (p ∷ w.blocks) (p ∷ w.objects))
      ∙ destroy_free-first p w.blocks w.objects,
  removed_again macos_semaphore
      (record { block = some p; mutex_ok = true; cond_ok = true; sem_ok = s }) at p w f,
)

-- The entry points, by the backend's methods
csp_create-bind :
    (k : Kind) (a : Answers) (at : Layout) (slot : Option ℕ) (w : Memory)
    → csp_create k a at (some slot) w
      ≡ ((methods_of k a at).create >>= λ handle. stored handle slot) w
unfolding csp_bin_sem_create csp_mutex_create
csp_create-bind mutex a at slot w = refl
csp_create-bind posix_semaphore a at slot w = refl
csp_create-bind macos_semaphore a at slot w = refl

csp_remove-bind :
    (k : Kind) (a : Answers) (at : Layout) (slot : Option ℕ) (w : Memory)
    → csp_remove k a at (some slot) w ≡ ((methods_of k a at).remove_handle slot >> pure (pos 0)) w
unfolding csp_bin_sem_remove csp_mutex_remove
csp_remove-bind mutex a at slot w = refl
csp_remove-bind posix_semaphore a at slot w = refl
csp_remove-bind macos_semaphore a at slot w = refl

-- Whatever libc answers, to create a mutex or a semaphore of either kind through a slot leaks nothing:
-- it fails and leaves the slot and the memory as they were, or it puts a handle into the slot, and to
-- remove it gives the memory back as it was. The slot keeps the handle, and to remove it
-- once more is a fault, where the block is not live.
pub csp_create-Balanced :
    (k : Kind) (a : Answers) (at : Layout) (slot : Option ℕ) (w : Memory)
    → IsFree a.block w
    → Balanced k a at slot w
csp_create-Balanced k a at slot w f =
    let object = methods_of k a at in
    elim (made k a.block a.mutex_ok a.cond_ok a.sem_ok at w f) [
      | inl e ↦ inl (csp_create-bind k a at slot w ∙ bind-some object.create _ w w none e)
      | inr (p, w', e, gone, again) ↦ inr (
        p,
        w',
        csp_create-bind k a at slot w ∙ bind-some object.create _ w w' (some p) e,
        csp_remove-bind k a at (some p) w'
            ∙ bind-some (object.remove_handle (some p)) _ w' w tt gone,
        csp_remove-bind k a at (some p) w ∙ bind-none (object.remove_handle (some p)) _ w again,
      )
    ]
