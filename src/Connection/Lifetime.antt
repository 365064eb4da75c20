-- ===== src/Connection/Lifetime.antt =====
-- The life of a `Connection` of src/connection.rs: `CspNode::connect` of src/init.rs and `Socket::accept`
-- of src/socket.rs make one from a pointer of libcsp, and its `drop` closes it. Connections are numbers.
use libcsp_rust.Base.{
  ℕ, suc, ◌+◌, ◌≡◌, ◌↔◌, ◌∙◌, refl, arith, List, [], ◌∷◌, true, Option, none, some, length,
}
use libcsp_rust.Base.Places.{
  has, remove, copies, copies-remove, length-remove, copies-has, has-copies,
}

-- The connections that are free in libcsp, those that it has open for itself, and those of the
-- `Connection` values; and how many libcsp gave and got back.
pub record Conns : Type 0 where
  pub free : List ℕ
  pub inside : List ℕ
  pub held : List ℕ
  pub given : ℕ
  pub closed : ℕ

-- What libcsp documents: a connection that it gives is open, and `csp_close` makes it free.
abbrev pub csp_close : ℕ → Conns → Conns
csp_close c w = record w { free = c ∷ w.free; closed = suc w.closed }

unfoldable pub from_raw : ℕ → Conns → Conns
from_raw c w = record w { held = c ∷ w.held; given = suc w.given }

-- The value ends.
unfoldable pub drop : ℕ → Conns → Conns
drop c w = csp_close c (record w { held = remove c w.held })

-- From the pointer that `csp_connect` gives, or null
unfoldable pub connect : Option ℕ → Conns → Option ℕ × Conns
unfolding from_raw
connect none w = (none, w)
connect (some c) w = (some c, from_raw c (record w { free = remove c w.free }))

-- From the pointer that `csp_accept` gives, or null
unfoldable pub accept : Option ℕ → Conns → Option ℕ × Conns
unfolding from_raw
accept none w = (none, w)
accept (some c) w = (some c, from_raw c (record w { inside = remove c w.inside }))

-- libcsp connects with a free connection, gives to `csp_accept` one that it opened, and shuts only
-- those that it did not give away.
pub data Step : Conns → Conns → Type 0 where
  connects : (c : ℕ) (w : Conns) → has c w.free ≡ true → Step w (connect (some c) w).1
  connects_not : (w : Conns) → Step w (connect none w).1
  accepts : (c : ℕ) (w : Conns) → has c w.inside ≡ true → Step w (accept (some c) w).1
  accepts_not : (w : Conns) → Step w (accept none w).1
  drops : (c : ℕ) (w : Conns) → has c w.held ≡ true → Step w (drop c w)
  csp_opens :
      (c : ℕ) (w : Conns)
      → has c w.free ≡ true
      → Step w (record w { free = remove c w.free; inside = c ∷ w.inside })
  csp_shuts :
      (c : ℕ) (w : Conns)
      → has c w.inside ≡ true
      → Step w (record w { inside = remove c w.inside; free = c ∷ w.free })

pub data Reachable (pool : List ℕ) : Conns → Type 0 where
  starts : Reachable pool (record { free = pool; inside = []; held = []; given = 0; closed = 0 })
  goes_on : {w w' : Conns} → Reachable pool w → Step w w' → Reachable pool w'

abbrev pub total : ℕ → Conns → ℕ
total q w = copies q w.free + copies q w.inside + copies q w.held

total-Step : {w w' : Conns} (q : ℕ) → Step w w' → total q w' ≡ total q w
unfolding connect accept drop from_raw
total-Step q (connects c w h) = omega (arith, copies-remove q c w.free h)
total-Step q (connects_not w) = refl
total-Step q (accepts c w h) = omega (arith, copies-remove q c w.inside h)
total-Step q (accepts_not w) = refl
total-Step q (drops c w h) = omega (arith, copies-remove q c w.held h)
total-Step q (csp_opens c w h) = omega (arith, copies-remove q c w.free h)
total-Step q (csp_shuts c w h) = omega (arith, copies-remove q c w.inside h)

abbrev IsSettled : Conns → Type 0
IsSettled w = w.given ≡ w.closed + length w.held

IsSettled-Step : {w w' : Conns} → Step w w' → IsSettled w → IsSettled w'
unfolding connect accept drop from_raw
IsSettled-Step (connects c w h) e = omega (arith, e)
IsSettled-Step (connects_not w) e = e
IsSettled-Step (accepts c w h) e = omega (arith, e)
IsSettled-Step (accepts_not w) e = e
IsSettled-Step (drops c w h) e = omega (arith, e, length-remove c w.held h)
IsSettled-Step (csp_opens c w h) e = e
IsSettled-Step (csp_shuts c w h) e = e

total-Reachable : {pool : List ℕ} {w : Conns} (q : ℕ) → Reachable pool w → total q w ≡ copies q pool
total-Reachable q starts = omega arith
total-Reachable q (goes_on r s) = total-Step q s ∙ total-Reachable q r

IsSettled-Reachable : {pool : List ℕ} {w : Conns} → Reachable pool w → IsSettled w
IsSettled-Reachable starts = refl
IsSettled-Reachable (goes_on r s) = IsSettled-Step s (IsSettled-Reachable r)

-- In every reachable state each connection of libcsp is in one place: free, open inside libcsp, or with
-- one `Connection` value. So no value is for a connection that was closed, and the connections that
-- libcsp gave are those that were closed, each once, and those that the values still hold.
pub held-exclusive :
    {pool : List ℕ} {w : Conns} (c : ℕ)
    → Reachable pool w
    → copies c pool ≡ 1
    → (total c w ≡ 1)
      × ((has c w.held ≡ true)
          ↔ ((copies c w.held ≡ 1) × (copies c w.free ≡ 0) × (copies c w.inside ≡ 0)))
      × (w.given ≡ w.closed + length w.held)
held-exclusive {w = w} c r h =
    let (to, back) : (has c w.held ≡ true)
        ↔ ((copies c w.held ≡ 1) × (copies c w.free ≡ 0) × (copies c w.inside ≡ 0)) =
      ground (arith, total-Reachable c r, copies-has c w.held, has-copies c w.held) in
    (total-Reachable c r ∙ h, (to, back), IsSettled-Reachable r)
