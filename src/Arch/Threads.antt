-- ===== src/Arch/Threads.antt =====
-- src/arch.rs, `csp_thread_create` of `export_arch!`: the entry point of every thread goes through one
-- static, which the thread reads when it begins. A function is its address.
use libcsp_rust.Base.{
  ℕ, zero, suc, List, [], ◌∷◌, ◌++◌, append-nil, append_assoc, map, Option, none, some, false, ◌==◌,
  if◌then◌else◌, ◌≡◌, ◌≢◌, ◌∙◌, refl, sym, ap, arith, length, All,
}
use libcsp_rust.Base.Int.{ℤ, pos}

-- `THREAD_ENTRY_POINT`, the arguments of the threads that the backend has created and that have not
-- begun, and the calls that the threads made, with their arguments, the latest last.
pub record Threads : Type 0 where
  pub entry : ℕ
  pub waiting : List ℕ
  pub calls : List (ℕ × ℕ)

-- `thread_create` of a backend, on the caller's argument: what it returns, and the argument with which
-- `wrapper` begins in the thread that it created. The method of the trait itself returns 0 and
-- creates no thread, and the hosted backend hands null to `wrapper` in place of the argument.
abbrev pub Backend : Type 0
Backend = ℕ → ℤ × Option ℕ

unfoldable pub csp_thread_create : Backend → ℕ → ℕ → Threads → ℤ × Threads
csp_thread_create thread_create f arg t =
    let (code, begun) = thread_create arg in
    (
      code,
      record t {
        entry = f;
        waiting = elim begun [ none ↦ t.waiting | some arg' ↦ t.waiting ++ (arg' ∷ []) ];
      },
    )

unfoldable pub wrapper : ℕ → Threads → Threads
wrapper arg t =
    let f_ptr = t.entry in
    if f_ptr == 0 then t else record t { calls = t.calls ++ ((f_ptr, arg) ∷ []) }

-- The first of the waiting threads begins.
unfoldable pub begin : Threads → Threads
unfolding wrapper
begin t = elim t.waiting [ [] ↦ t | arg ∷ rest ↦ wrapper arg (record t { waiting = rest }) ]

abbrev pub last_entry : ℕ → List (ℕ × ℕ) → ℕ
last_entry entry [] = entry
last_entry entry ((f, arg) ∷ wanted) = last_entry f wanted

unfoldable pub begin_all : ℕ → Threads → Threads
begin_all zero t = t
begin_all (suc n) t = begin_all n (begin t)

module _ (thread_create : Backend) where
  -- Each function with its argument is created, and begins before the next is created.
  unfoldable pub in_turn : List (ℕ × ℕ) → Threads → Threads
  in_turn [] t = t
  in_turn ((f, arg) ∷ wanted) t = in_turn wanted (begin (csp_thread_create thread_create f arg t).1)

  unfoldable pub create_all : List (ℕ × ℕ) → Threads → Threads
  create_all [] t = t
  create_all ((f, arg) ∷ wanted) t = create_all wanted (csp_thread_create thread_create f arg t).1

not_null : (f : ℕ) → f ≢ 0 → (f == 0) ≡ false
not_null f n = ground arith

begin-next :
    (entry arg : ℕ) (waiting : List ℕ) (calls : List (ℕ × ℕ))
    → entry ≢ 0
    → begin (record { entry = entry; waiting = arg ∷ waiting; calls = calls })
      ≡ record { entry = entry; waiting = waiting; calls = calls ++ ((entry, arg) ∷ []) }
unfolding begin wrapper
begin-next entry arg waiting calls n = rw (not_null entry n) refl

begin_all-calls :
    (waiting : List ℕ) (entry : ℕ) (calls : List (ℕ × ℕ))
    → entry ≢ 0
    → (begin_all
        (length waiting)
        (record { entry = entry; waiting = waiting; calls = calls })).calls
      ≡ calls ++ map {B = ℕ × ℕ} (λ arg. (entry, arg)) waiting
unfolding begin_all
begin_all-calls [] entry calls n = sym (append-nil calls)
begin_all-calls (arg ∷ waiting) entry calls n =
    ap (λ t. (begin_all (length waiting) t).calls) (begin-next entry arg waiting calls n)
    ∙ begin_all-calls waiting entry (calls ++ ((entry, arg) ∷ [])) n
    ∙ append_assoc calls ((entry, arg) ∷ []) (map {B = ℕ × ℕ} (λ arg. (entry, arg)) waiting)

unfoldable pub idle : ℕ → Threads
idle entry = record { entry = entry; waiting = []; calls = [] }

-- The arguments with which the threads begin.
abbrev args_of : (ℕ → ℕ) → List (ℕ × ℕ) → List ℕ
args_of given [] = []
args_of given ((f, arg) ∷ wanted) = given arg ∷ args_of given wanted

length-args :
    (given : ℕ → ℕ) (wanted : List (ℕ × ℕ)) → length wanted ≡ length (args_of given wanted)
length-args given [] = refl
length-args given (call ∷ wanted) = ap suc (length-args given wanted)

map-args :
    (given : ℕ → ℕ) (entry : ℕ) (wanted : List (ℕ × ℕ))
    → map {B = ℕ × ℕ} (λ arg. (entry, arg)) (args_of given wanted)
      ≡ map {B = ℕ × ℕ} (λ ((g, arg) : ℕ × ℕ). (entry, given arg)) wanted
map-args given entry [] = refl
map-args given entry (call ∷ wanted) =
    ap (λ rest. (entry, given call.1) ∷ rest) (map-args given entry wanted)

-- A backend that creates a thread at each call, which begins with `given` of the caller's argument.
module _ (thread_create : Backend) (given : ℕ → ℕ)
    (creates : (arg : ℕ) → thread_create arg ≡ (pos 0, some (given arg))) where
  created_state :
      (f arg entry : ℕ) (waiting : List ℕ) (calls : List (ℕ × ℕ))
      → (csp_thread_create thread_create f arg
          (record { entry = entry; waiting = waiting; calls = calls })).1
        ≡ record { entry = f; waiting = waiting ++ (given arg ∷ []); calls = calls }
  unfolding csp_thread_create
  created_state f arg entry waiting calls = rw (creates arg) refl

  in_turn-calls :
      (wanted calls : List (ℕ × ℕ)) (entry : ℕ)
      → All (λ ((f, arg) : ℕ × ℕ). f ≢ 0) wanted
      → (in_turn thread_create wanted (record { entry = entry; waiting = []; calls = calls })).calls
        ≡ calls ++ map {B = ℕ × ℕ} (λ ((f, arg) : ℕ × ℕ). (f, given arg)) wanted
  unfolding in_turn
  in_turn-calls [] calls entry h = sym (append-nil calls)
  in_turn-calls ((f, arg) ∷ wanted) calls entry (n, h) =
      ap (λ t. (in_turn thread_create wanted (begin t)).calls) (created_state f arg entry [] calls)
      ∙ ap (λ t. (in_turn thread_create wanted t).calls) (begin-next f (given arg) [] calls n)
      ∙ in_turn-calls wanted (calls ++ ((f, given arg) ∷ [])) f h
      ∙ append_assoc calls ((f, given arg) ∷ [])
          (map {B = ℕ × ℕ} (λ ((f, arg) : ℕ × ℕ). (f, given arg)) wanted)

  create_all-state :
      (wanted : List (ℕ × ℕ)) (entry : ℕ) (waiting : List ℕ) (calls : List (ℕ × ℕ))
      → create_all thread_create wanted (record { entry = entry; waiting = waiting; calls = calls })
        ≡ record {
          entry = last_entry entry wanted;
          waiting = waiting ++ args_of given wanted;
          calls = calls;
        }
  unfolding create_all
  create_all-state [] entry waiting calls =
      ap (λ w. record { entry = entry; waiting = w; calls = calls }) (sym (append-nil waiting))
  create_all-state ((f, arg) ∷ wanted) entry waiting calls =
      ap (create_all thread_create wanted) (created_state f arg entry waiting calls)
      ∙ create_all-state wanted f (waiting ++ (given arg ∷ [])) calls
      ∙ ap (λ w. record { entry = last_entry f wanted; waiting = w; calls = calls })
          (append_assoc waiting (given arg ∷ []) (args_of given wanted))

  create_all-calls :
      (wanted : List (ℕ × ℕ)) (entry : ℕ)
      → last_entry entry wanted ≢ 0
      → (begin_all (length wanted) (create_all thread_create wanted (idle entry))).calls
        ≡ map {B = ℕ × ℕ} (λ ((g, arg) : ℕ × ℕ). (last_entry entry wanted, given arg)) wanted
  unfolding idle
  create_all-calls wanted entry l =
      let args = args_of given wanted in
      ap (λ t. (begin_all (length wanted) t).calls) (create_all-state wanted entry [] [])
      ∙ ap
          (λ n.
            (begin_all n
              (record { entry = last_entry entry wanted; waiting = args; calls = [] })).calls)
          (length-args given wanted)
      ∙ begin_all-calls args (last_entry entry wanted) [] l
      ∙ map-args given (last_entry entry wanted) wanted

  -- With a backend that returns 0 and creates a thread at every call, in which `wrapper` begins with
  -- `given` of the caller's argument (that argument itself, or null in the hosted backend), for functions
  -- that are not null: if each thread begins before the next is created, each calls its own function with
  -- what it was given; if all are created before the first begins, each calls, with what it was given,
  -- the function of the thread that was created last.
  pub calls-wanted :
      (entry f arg : ℕ) (wanted : List (ℕ × ℕ))
      → All (λ ((f, arg) : ℕ × ℕ). f ≢ 0) ((f, arg) ∷ wanted)
      → last_entry f wanted ≢ 0
      → ((in_turn thread_create ((f, arg) ∷ wanted) (idle entry)).calls
          ≡ map {B = ℕ × ℕ} (λ ((g, arg') : ℕ × ℕ). (g, given arg')) ((f, arg) ∷ wanted))
        × ((begin_all
              (suc (length wanted))
              (create_all thread_create ((f, arg) ∷ wanted) (idle entry))).calls
            ≡ map {B = ℕ × ℕ}
                (λ ((g, arg') : ℕ × ℕ). (last_entry f wanted, given arg'))
                ((f, arg) ∷ wanted))
  unfolding idle
  calls-wanted entry f arg wanted n l =
      (in_turn-calls ((f, arg) ∷ wanted) [] entry n, create_all-calls ((f, arg) ∷ wanted) entry l)
