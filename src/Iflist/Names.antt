-- ===== src/Iflist/Names.antt =====
-- The names that `list_names` collects from libcsp's list of interfaces.
use libcsp_rust.Base.{
  ℕ, zero, suc, ◌<◌, List, [], ◌∷◌, ◌++◌, append-nil, append_assoc, Bool, Option, none, some, ◌≡◌,
  refl, arith, length, if◌then◌else◌, Bool-cases, inl, inr,
}
use libcsp_rust.Iflist.{Iface, to_str, pushed, list_loop, list_names}

-- From `cur` on, `iterate` goes through the pointers `ps` and then gives null.
abbrev pub Walks : (Option ℕ → Option ℕ) → Option ℕ → List ℕ → Type 0
Walks iterate cur [] = iterate cur ≡ none
Walks iterate cur (p ∷ ps) = (iterate cur ≡ some p) × Walks iterate (some p) ps

-- The names, in the order of the pointers: where the field is null or its bytes are not UTF-8 there
-- is none.
abbrev pub valid_names : (List ℕ → Bool) → (ℕ → Iface) → List ℕ → List (List ℕ)
valid_names is_utf8 iface_at [] = []
valid_names is_utf8 iface_at (p ∷ ps) =
    let rest = valid_names is_utf8 iface_at ps in
    elim (iface_at p).name [ none ↦ rest | some text ↦ if is_utf8 text then text ∷ rest else rest ]

-- One turn of the loop adds the name of its interface, if it has a valid one.
pushed-append :
    (is_utf8 : List ℕ → Bool) (names : List (List ℕ)) (o : Option (List ℕ)) (rest : List (List ℕ))
    → pushed names (to_str is_utf8 o) ++ rest
      ≡ names ++ elim o [ none ↦ rest | some text ↦ if is_utf8 text then text ∷ rest else rest ]
unfolding pushed to_str
pushed-append is_utf8 names none rest = refl
pushed-append is_utf8 names (some text) rest = elim (Bool-cases (is_utf8 text)) [
  | inl is ↦ rw is (append_assoc names (text ∷ []) rest)
  | inr not ↦ rw not refl
]

module _ (is_utf8 : List ℕ → Bool) (iterate : Option ℕ → Option ℕ) (iface_at : ℕ → Iface) where
  list_loop-names :
      (fuel : ℕ) (cur : Option ℕ) (ps : List ℕ) (names : List (List ℕ))
      → Walks iterate cur ps
      → length ps < fuel
      → list_loop is_utf8 iterate iface_at fuel cur names
        ≡ some (names ++ valid_names is_utf8 iface_at ps)
  unfolding list_loop
  list_loop-names zero cur ps names w h = absurd (omega arith)
  list_loop-names (suc fuel) cur [] names w h = ground (arith, append-nil names)
  list_loop-names (suc fuel) cur (p ∷ ps) names (e, w) h = ground (
    arith,
    list_loop-names fuel (some p) ps (pushed names (to_str is_utf8 (iface_at p).name)) w
        (omega arith),
    pushed-append is_utf8 names (iface_at p).name (valid_names is_utf8 iface_at ps),
  )

  -- Where libcsp's list is finite, with fuel for one step more than it has interfaces the loop ends,
  -- and it gives the names of those interfaces that have a UTF-8 name, in their order.
  pub list_names-valid :
      (fuel : ℕ) (ps : List ℕ)
      → Walks iterate none ps
      → length ps < fuel
      → list_names is_utf8 iterate iface_at fuel ≡ some (valid_names is_utf8 iface_at ps)
  unfolding list_names
  list_names-valid fuel ps w h = list_loop-names fuel none ps [] w h
