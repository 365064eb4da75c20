-- ===== src/Arch/Handles.antt =====
-- The entry points of `export_arch!` (src/arch.rs) that create and remove semaphores and mutexes, over the
-- memory that a backend takes its objects from. A pointer to a slot is `none` when it is null, and
-- so is the handle in a slot.
use libcsp_rust.Base.{
  ℕ, ◌≡◌, List, ◌∷◌, Bool, true, false, Option, none, some, if◌then◌else◌, arith, refl,
}
use libcsp_rust.Base.Int.{ℤ, pos, negsuc}
use libcsp_rust.Base.Places.{has, remove}

-- The addresses of the blocks that `malloc` gave and nobody freed, and of the objects that were
-- initialised and not destroyed.
pub record Memory : Type 0 where
  pub blocks : List ℕ
  pub objects : List ℕ

-- `none` is a fault: what is freed or destroyed is not live.
abbrev pub M : Type 0 → Type 0
M A = Memory → Option (A × Memory)

abbrev pub pure : {A : Type 0} → A → M A
pure a w = some (a, w)

abbrev pub fault : {A : Type 0} → M A
fault w = none

infixl 5 ◌>>=◌ ◌>>◌
abbrev pub ◌>>=◌ : {A B : Type 0} → M A → (A → M B) → M B
◌>>=◌ m f w = elim (m w) [ none ↦ none | some (a, w') ↦ f a w' ]

abbrev pub ◌>>◌ : {B : Type 0} → M (Unit {0}) → M B → M B
m >> k = m >>= λ u. k

pub bind-some :
    {A B : Type 0} (m : M A) (f : A → M B) (w w' : Memory) (a : A)
    → m w ≡ some (a, w')
    → (m >>= f) w ≡ f a w'
bind-some m f w w' a e = rw (e, ◌>>=◌) refl

pub bind-none :
    {A B : Type 0} (m : M A) (f : A → M B) (w : Memory) → m w ≡ none → (m >>= f) w ≡ none
bind-none m f w e = rw (e, ◌>>=◌) refl

-- libc, by what it answers: the block, if any, and whether an initialisation succeeds.
abbrev pub malloc : Option ℕ → M (Option ℕ)
malloc none w = some (none, w)
malloc (some p) w = some (some p, record w { blocks = p ∷ w.blocks })

abbrev pub free : ℕ → M (Unit {0})
free p w = if has p w.blocks then some (tt, record w { blocks = remove p w.blocks }) else none

abbrev pub init : ℕ → Bool → M Bool
init at ok w = some (ok, if ok then record w { objects = at ∷ w.objects } else w)

abbrev pub destroy : ℕ → M (Unit {0})
destroy at w =
    if has at w.objects then some (tt, record w { objects = remove at w.objects }) else none

pub free-none : (p : ℕ) (w : Memory) → has p w.blocks ≡ false → free p w ≡ none
free-none p w f = rw f refl

has-first : (p : ℕ) (ps : List ℕ) → has p (p ∷ ps) ≡ true
has-first p ps = ground arith

remove-first : (p : ℕ) (ps : List ℕ) → remove p (p ∷ ps) ≡ ps
remove-first p ps = ground arith

pub free-first :
    (p : ℕ) (blocks objects : List ℕ)
    → free p (record { blocks = p ∷ blocks; objects = objects })
      ≡ some (tt, record { blocks = blocks; objects = objects })
free-first p blocks objects = rw (has-first p blocks, remove-first p blocks) refl

pub destroy-first :
    (p : ℕ) (blocks objects : List ℕ)
    → destroy p (record { blocks = blocks; objects = p ∷ objects })
      ≡ some (tt, record { blocks = blocks; objects = objects })
destroy-first p blocks objects = rw (has-first p objects, remove-first p objects) refl

-- A backend's methods for one kind of object
pub record HandleMethods : Type 0 where
  pub create : M (Option ℕ)
  pub remove_handle : Option ℕ → M (Unit {0})

-- `if s.is_null()`
abbrev pub stored : Option ℕ → Option ℕ → M (ℤ × Option (Option ℕ))
stored none slot = pure (negsuc 0, some slot)
stored (some p) slot = pure (pos 0, some (some p))

module _ (methods : HandleMethods) where
  open methods use {create, remove_handle}

  unfoldable pub csp_bin_sem_create : Option (Option ℕ) → M (ℤ × Option (Option ℕ))
  csp_bin_sem_create none = pure (negsuc 0, none)
  csp_bin_sem_create (some slot) = do s ← create; stored s slot

  -- The slot keeps the pointer.
  unfoldable pub csp_bin_sem_remove : Option (Option ℕ) → M ℤ
  csp_bin_sem_remove none = pure (negsuc 0)
  csp_bin_sem_remove (some slot) = do remove_handle slot; pure (pos 0)

  unfoldable pub csp_mutex_create : Option (Option ℕ) → M (ℤ × Option (Option ℕ))
  csp_mutex_create none = pure (negsuc 0, none)
  csp_mutex_create (some slot) = do m ← create; stored m slot

  unfoldable pub csp_mutex_remove : Option (Option ℕ) → M ℤ
  csp_mutex_remove none = pure (negsuc 0)
  csp_mutex_remove (some slot) = do remove_handle slot; pure (pos 0)
