-- ===== src/Node/Once.antt =====
-- `CspConfig::init` called any number of times: csp_init runs at most once.
use libcsp_rust.Base.{List, [], ◌∷◌, ◌++◌, map, Bool, true, false, ◌≡◌, refl, arith}
use libcsp_rust.Error.{already_initialized, Result, ok, err}
use libcsp_rust.Node.{CspConfig, setup, Runtime, init}

-- One call after another, with what each returns.
unfoldable pub inits : Runtime → List (Bool × CspConfig) → List (Result (Unit {0})) × Runtime
inits r [] = ([], r)
inits r ((found, c) ∷ calls) =
    let (result, r') = init found r c in
    let (results, r'') = inits r' calls in (result ∷ results, r'')

refused-inits :
    (r : Runtime) (calls : List (Bool × CspConfig))
    → r.initialized ≡ true
    → inits r calls ≡ (map (λ call. err already_initialized) calls, r)
unfolding inits init
refused-inits r [] e = refl
refused-inits r (call ∷ calls) e = ground (arith, refused-inits r calls e)

-- On a runtime that is not initialised, the first call succeeds, each later call is refused with
-- `AlreadyInitialized`, and the runtime stays as the first call leaves it: initialised, with the
-- address of the first configuration, and with the effects of the first call alone.
pub inits-once :
    (r : Runtime) (found : Bool) (c : CspConfig) (calls : List (Bool × CspConfig))
    → r.initialized ≡ false
    → inits r ((found, c) ∷ calls) ≡ (
      ok tt ∷ map (λ call. err already_initialized) calls,
      record { initialized = true; node_address = c.address; effects = r.effects ++ setup found c },
    )
unfolding inits init
inits-once r found c calls e = ground (arith, refused-inits (init found r c).1 calls)
