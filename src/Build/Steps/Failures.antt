-- ===== src/Build/Steps/Failures.antt =====
-- How the build script of build.rs ends when an action fails: it is the script in which all actions
-- succeed, cut short before the first that fails.
use libcsp_rust.Base.{
  List, [], ◌∷◌, ◌++◌, Bool, true, false, ◌&&◌, if◌then◌else◌, ◌≡◌, refl, arith, ap, sym, ◌∙◌, inl,
  inr, Bool-cases,
}
use libcsp_rust.Build.Steps.{Step, Ended, returned, panicked, ◌then_run◌, act, acts}

abbrev pub has_returned : Ended → Bool
has_returned (returned s) = true
has_returned (panicked s) = false

abbrev pub steps_of : Ended → List Step
steps_of (returned s) = s
steps_of (panicked s) = s

-- All actions succeed.
abbrev pub always : Step → Bool
always s = true

pub acts-always : (steps : List Step) → acts always steps ≡ returned steps
unfolding acts act ◌then_run◌
acts-always [] = refl
acts-always (s ∷ steps) = rw (acts-always steps) refl

-- The steps before the first that fails, and whether there is none that fails.
abbrev pub until_failure : (Step → Bool) → List Step → List Step
until_failure works [] = []
until_failure works (s ∷ steps) = if works s then s ∷ until_failure works steps else []

abbrev pub all_work : (Step → Bool) → List Step → Bool
all_work works [] = true
all_work works (s ∷ steps) = works s && all_work works steps

-- What remains of a part that is stopped by its first failing action.
unfoldable pub cut_short : (Step → Bool) → Ended → Ended
cut_short works (returned s) =
    if all_work works s then returned s else panicked (until_failure works s)
cut_short works (panicked s) = panicked (until_failure works s)

module _ (works : Step → Bool) where
  until_all : (s : List Step) → all_work works s ≡ true → until_failure works s ≡ s
  until_all [] h = refl
  until_all (x ∷ s) h = elim (Bool-cases (works x)) [
    | inl e ↦ rw e (ap (λ t. x ∷ t) (until_all s (rw e at h)))
    | inr e ↦ absurd (ground (arith, h, e))
  ]

  until-append :
      (s t : List Step)
      → until_failure works (s ++ t)
        ≡ (if all_work works s then s ++ until_failure works t else until_failure works s)
  until-append [] t = refl
  until-append (x ∷ s) t = elim (Bool-cases (works x)) [
    | inl e ↦ elim (Bool-cases (all_work works s)) [
      | inl f ↦ rw (e, f, until-append s t) (rw f refl)
      | inr f ↦ rw (e, f, until-append s t) (rw f refl)
    ]
    | inr e ↦ rw e refl
  ]

  all-append : (s t : List Step) → all_work works (s ++ t) ≡ (all_work works s && all_work works t)
  all-append [] t = refl
  all-append (x ∷ s) t = elim (Bool-cases (works x)) [
    | inl e ↦ rw e (all-append s t)
    | inr e ↦ rw e refl
  ]

  pub has_returned-cut_short :
      (e : Ended)
      → has_returned (cut_short works e) ≡ (has_returned e && all_work works (steps_of e))
  unfolding cut_short
  has_returned-cut_short (returned s) = ground arith
  has_returned-cut_short (panicked s) = refl

  pub steps_of-cut_short :
      (e : Ended) → steps_of (cut_short works e) ≡ until_failure works (steps_of e)
  unfolding cut_short
  steps_of-cut_short (returned s) = elim (Bool-cases (all_work works s)) [
    | inl f ↦ rw f (sym (until_all s f))
    | inr f ↦ rw f refl
  ]
  steps_of-cut_short (panicked s) = refl

  pub cut_short-then_run :
      (e f : Ended)
      → cut_short works (e then_run f) ≡ ((cut_short works e) then_run (cut_short works f))
  unfolding cut_short ◌then_run◌
  cut_short-then_run (panicked s) f = refl
  cut_short-then_run (returned s) (panicked t) = elim (Bool-cases (all_work works s)) [
    | inl h ↦ rw (until-append s t, h) refl
    | inr h ↦ rw (until-append s t, h) refl
  ]
  cut_short-then_run (returned s) (returned t) = elim (Bool-cases (all_work works s)) [
    | inl h ↦ elim (Bool-cases (all_work works t)) [
      | inl k ↦ rw (all-append s t, h, k) refl
      | inr k ↦ rw (all-append s t, until-append s t, h, k) refl
    ]
    | inr h ↦ rw (all-append s t, until-append s t, h) refl
  ]

  cut_short-returned : (s : List Step) → acts works s ≡ cut_short works (returned s)
  unfolding acts act cut_short ◌then_run◌
  cut_short-returned [] = refl
  cut_short-returned (x ∷ s) = elim (Bool-cases (works x)) [
    | inl e ↦ elim (Bool-cases (all_work works s)) [
      | inl f ↦ rw (e, cut_short-returned s, f) refl
      | inr f ↦ rw (e, cut_short-returned s, f) refl
    ]
    | inr e ↦ rw e refl
  ]

  pub cut_short-acts : (s : List Step) → cut_short works (acts always s) ≡ acts works s
  cut_short-acts s = ap (cut_short works) (acts-always s) ∙ sym (cut_short-returned s)

  pub cut_short-if :
      (b : Bool) (e : Ended)
      → cut_short works (if b then e else returned [])
        ≡ (if b then cut_short works e else returned [])
  unfolding cut_short
  cut_short-if true e = refl
  cut_short-if false e = refl

  pub cut_short-or_panic :
      (b : Bool) (e : Ended)
      → cut_short works (if b then e else panicked [])
        ≡ (if b then cut_short works e else panicked [])
  unfolding cut_short
  cut_short-or_panic true e = refl
  cut_short-or_panic false e = refl
