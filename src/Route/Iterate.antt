-- ===== src/Route/Iterate.antt =====
-- src/route.rs, `iterate`: the walk itself is libcsp's, a closure answers each entry.
use libcsp_rust.Base.{
  List, [], ◌∷◌, ◌++◌, Bool, true, false, Option, none, some, ◌≡◌, ◌≢◌, ◌∙◌, ap, append_assoc, refl,
  All,
}
use libcsp_rust.Ffi.{guard}
use libcsp_rust.Packet.{Checked, value, panic}
use libcsp_rust.Route.{RouteEntry}

-- `keep_going` is false unless the closure says true; `s` is what the closure keeps.
unfoldable pub kept {ℓ} : {S : Type ℓ} → Checked (Option Bool) → S → Checked (Bool × S)
kept (value (some keep_going)) s = value (keep_going, s)
kept (value none) s = value (false, s)
kept panic s = panic

module _ {ℓ} {S : Type ℓ} (std : Bool) where
  unfoldable pub shim : (S → RouteEntry → Checked Bool × S) → S → RouteEntry → Checked (Bool × S)
  unfolding guard kept
  shim f s route = let (answer, s') = f s route in kept (guard std answer) s'

  -- `csp_rtable_iterate`, as what it leaves of the closure's state
  unfoldable pub iterate :
      ((S → RouteEntry → Checked (Bool × S)) → S → Checked S)
      → (S → RouteEntry → Checked Bool × S)
      → S
      → Checked S
  unfolding shim
  iterate rtable_iterate f s = rtable_iterate (shim f) s

-- What libcsp documents of `csp_rtable_iterate` on a table: the entries in turn, until one is
-- answered with false.
module _ {ℓ} {S : Type ℓ} (call : S → RouteEntry → Checked (Bool × S)) where
  unfoldable pub walk : List RouteEntry → S → Checked S
  walk [] s = value s
  walk (route ∷ table) s = elim (call s route) [
    | panic ↦ panic
    | value (true, s') ↦ walk table s'
    | value (false, s') ↦ value s'
  ]

-- A closure that notes the entries it gets, the latest last.
unfoldable pub noting :
    (RouteEntry → Checked Bool) → List RouteEntry → RouteEntry → Checked Bool × List RouteEntry
noting answer seen route = (answer route, seen ++ (route ∷ []))

kept-guard {ℓ} :
    {S : Type ℓ} (answer : Checked Bool) (s : S)
    → answer ≢ value true
    → kept (guard true answer) s ≡ value (false, s)
unfolding kept guard
kept-guard (value true) s n = absurd (n refl)
kept-guard (value false) s n = refl
kept-guard panic s n = refl

walk-noting :
    (answer : RouteEntry → Checked Bool) (seen xs ys : List RouteEntry) (stop : RouteEntry)
    → All (λ route. answer route ≡ value true) xs
    → answer stop ≢ value true
    → walk (shim true (noting answer)) (xs ++ stop ∷ ys) seen ≡ value (seen ++ (xs ++ stop ∷ []))
unfolding walk shim noting kept guard
walk-noting answer seen [] ys stop h n = rw (kept-guard (answer stop) (seen ++ (stop ∷ [])) n) refl
walk-noting answer seen (x ∷ xs) ys stop (hx, h) n = rw hx (
    walk-noting answer (seen ++ (x ∷ [])) xs ys stop h n
    ∙ ap value (append_assoc seen (x ∷ []) (xs ++ stop ∷ [])))

-- Where libcsp walks the table as documented, and panics are caught: the closure gets the entries
-- up to the first on which it returns false or panics, that one included, and no later one.
pub iterate-stops :
    (answer : RouteEntry → Checked Bool)
    (rtable_iterate : (List RouteEntry → RouteEntry → Checked (Bool × List RouteEntry))
      → List RouteEntry
      → Checked (List RouteEntry))
    (seen xs ys : List RouteEntry) (stop : RouteEntry)
    → ((call : List RouteEntry → RouteEntry → Checked (Bool × List RouteEntry))
          (s : List RouteEntry)
        → rtable_iterate call s ≡ walk call (xs ++ stop ∷ ys) s)
    → All (λ route. answer route ≡ value true) xs
    → answer stop ≢ value true
    → iterate true rtable_iterate (noting answer) seen ≡ value (seen ++ (xs ++ stop ∷ []))
unfolding iterate
iterate-stops answer rtable_iterate seen xs ys stop documented h n =
    documented (shim true (noting answer)) seen ∙ walk-noting answer seen xs ys stop h n
