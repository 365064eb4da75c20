-- ===== src/Promisc/Unique.antt =====
-- At most one handle, whatever the interleaving.
use libcsp_rust.Base.{
  ℕ, ◌+◌, ◌≡◌, ◌≤◌, ◌↔◌, List, [], ◌∷◌, ◌++◌, Bool, true, false, arith, refl, sym, ◌∙◌,
}
use libcsp_rust.Base.Int.{ℤ}
use libcsp_rust.Error.{Result, ok, err, csp_result}
use libcsp_rust.Promisc.{
  Phase, idle, swapped, holding, disabled, refused, Shared, World, Step, takes, Reachable, starts,
  goes_on, idles, step, enabled_as,
}

abbrev pub of_bool : Bool → ℕ
of_bool true = 1
of_bool false = 0

-- Inside `open`, with the handle, or inside `drop`.
abbrev pub is_busy : Phase → Bool
is_busy idle = false
is_busy swapped = true
is_busy holding = true
is_busy disabled = true
is_busy (refused e) = true

abbrev pub is_holding : Phase → Bool
is_holding idle = false
is_holding swapped = false
is_holding holding = true
is_holding disabled = false
is_holding (refused e) = false

abbrev pub count : (Phase → Bool) → List Phase → ℕ
count f [] = 0
count f (p ∷ ps) = of_bool (f p) + count f ps

count-append :
    (f : Phase → Bool) (ps : List Phase) (p : Phase) (qs : List Phase)
    → count f (ps ++ (p ∷ qs)) ≡ of_bool (f p) + (count f ps + count f qs)
count-append f [] p qs = omega arith
count-append f (x ∷ ps) p qs = omega (arith, count-append f ps p qs)

count-holding-le : (ps : List Phase) → count is_holding ps ≤ count is_busy ps
count-holding-le [] = omega arith
count-holding-le (idle ∷ ps) = omega (arith, count-holding-le ps)
count-holding-le (swapped ∷ ps) = omega (arith, count-holding-le ps)
count-holding-le (holding ∷ ps) = omega (arith, count-holding-le ps)
count-holding-le (disabled ∷ ps) = omega (arith, count-holding-le ps)
count-holding-le (refused e ∷ ps) = omega (arith, count-holding-le ps)

count-idles : (f : Phase → Bool) → f idle ≡ false → (n : List (Unit {0})) → count f (idles n) ≡ 0
count-idles f h [] = refl
count-idles f h (u ∷ n) = rw h (omega (arith, count-idles f h n))

-- The flag counts the busy threads, `a` besides `p`, and the mode those with the handle, `b`
-- besides `p`.
Counted : ℕ → ℕ → Shared → Phase → Type 0
Counted a b s p =
    (of_bool (is_busy p) + a ≡ of_bool s.active) × (of_bool (is_holding p) + b ≡ of_bool s.enabled)

enabled_as-Counted :
    (a b : ℕ) (s : Shared) (r : Result (Unit {0}))
    → b ≤ a
    → Counted a b s swapped
    → Counted a b (enabled_as s r).0 (enabled_as s r).1
unfolding Counted enabled_as
enabled_as-Counted a b s (ok u) h c = ground arith
enabled_as-Counted a b s (err e) h c = c

step-Counted :
    (a b : ℕ) (ret : ℤ) (s : Shared) (p : Phase)
    → b ≤ a
    → Counted a b s p
    → Counted a b (step ret s p).0 (step ret s p).1
unfolding Counted step
step-Counted a b ret s idle h c = ground arith
step-Counted a b ret s swapped h c = enabled_as-Counted a b s (csp_result ret) h c
step-Counted a b ret s (refused e) h c = ground arith
step-Counted a b ret s holding h c = ground arith
step-Counted a b ret s disabled h c = ground arith

-- The two counts over all threads.
abbrev pub IsCounted : World → Type 0
IsCounted (s, ps) =
    (count is_busy ps ≡ of_bool s.active) × (count is_holding ps ≡ of_bool s.enabled)

-- From a state with one thread singled out to the whole world, and back.
whole :
    (before : List Phase) (p : Phase) (after : List Phase) (s : Shared)
    → IsCounted (s, before ++ (p ∷ after))
      ↔ Counted
          (count is_busy before + count is_busy after)
          (count is_holding before + count is_holding after)
          s
          p
unfolding Counted
whole before p after s =
    let busy = count-append is_busy before p after in
    let held = count-append is_holding before p after in
    (λ c. (sym busy ∙ c.0, sym held ∙ c.1), λ c. (busy ∙ c.0, held ∙ c.1))

Step-IsCounted : (v w : World) → Step v w → IsCounted v → IsCounted w
Step-IsCounted v w (takes before p after s ret) c =
    let le : count is_holding before + count is_holding after
        ≤ count is_busy before + count is_busy after =
      omega (arith, count-holding-le before, count-holding-le after) in
    (whole before (step ret s p).1 after (step ret s p).0).1 (
      step-Counted (count is_busy before + count is_busy after)
        (count is_holding before + count is_holding after) ret s p le
        ((whole before p after s).0 c))

Reachable-IsCounted : (w : World) → Reachable w → IsCounted w
Reachable-IsCounted w (starts n) = (count-idles is_busy refl n, count-idles is_holding refl n)
Reachable-IsCounted w (goes_on {v = v} r st) = Step-IsCounted v w st (Reachable-IsCounted v r)

of_bool-le : (b : Bool) → of_bool b ≤ 1
of_bool-le true = omega arith
of_bool-le false = omega arith

-- However the steps of any number of threads interleave, from no handle on: at most one thread has
-- the handle, libcsp is in promiscuous mode exactly while one has it, and `SNIFFER_ACTIVE` is set
-- exactly while one is opening it, has it, or is dropping it.
pub one_sniffer :
    (s : Shared) (ps : List Phase)
    → Reachable (s, ps)
    → (count is_holding ps ≤ 1)
      × ((s.enabled ≡ true) ↔ (count is_holding ps ≡ 1))
      × ((s.active ≡ true) ↔ (count is_busy ps ≡ 1))
one_sniffer s ps r =
    let (busy, held) = Reachable-IsCounted (s, ps) r in ground (arith, of_bool-le s.enabled)
