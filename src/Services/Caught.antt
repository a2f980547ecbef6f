-- ===== src/Services/Caught.antt =====
-- layers/catch_panic.rs and layers/handle_error.rs around a service.
use ftl.Prelude.{◌≡◌, refl, Result, ok, err}
use ftl.Services.{
  Outcome, panicked, returned, map_outcome, and_then, Service, handled, handle_error, joined,
  catch_panic,
}

module _ {ℓ} {R E T X : Type ℓ} (from_ok : R → T) (from_err : X → T) (f : E → Outcome X)
    (server_error : T) where
  -- What the two layers make of what a service comes to.
  abbrev pub answer : Outcome (Result R E) → T
  answer panicked = server_error
  answer (returned (ok r)) = from_ok r
  answer (returned (err e)) = elim (f e) [ panicked ↦ server_error | returned x ↦ from_err x ]

  caught :
      {N : Type ℓ} (x : Outcome X)
      → joined {E = N} server_error (map_outcome (λ t. ok t) (map_outcome from_err x))
        ≡ returned (ok (elim x [ panicked ↦ server_error | returned y ↦ from_err y ]))
  unfolding joined
  caught panicked = refl
  caught (returned y) = refl

  both :
      {N : Type ℓ} (o : Outcome (Result R E))
      → joined {E = N} server_error
          (and_then o (λ r. map_outcome (λ t. ok t) (handled from_ok from_err f r)))
        ≡ returned (ok (answer o))
  unfolding joined handled
  both panicked = refl
  both (returned (ok r)) = refl
  both (returned (err e)) = caught (f e)

  pub catch_panic-handle_error :
      {Q N : Type ℓ} (inner : Service Q R E) (req : Q)
      → catch_panic {E = N} server_error (handle_error from_ok from_err f inner) req
        ≡ returned (ok (answer (inner req)))
  unfolding catch_panic handle_error
  catch_panic-handle_error inner req = both (inner req)
