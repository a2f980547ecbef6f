-- ===== src/Extractors/Tuples.antt =====
-- extract/mod.rs: the arguments of a handler, one after the other.
use ftl.Prelude.{◌≡◌, ◌⊎◌, inl, inr, refl, List, [], ◌∷◌, ◌++◌, Result, ok, err, Result-cases}
use ftl.Extractors.{
  FromRequestParts, FromRequest, cons_result, then_parts, tuple_parts, add_last, then_last,
  tuple_request,
}

module _ {ℓ} {P V E : Type ℓ} where
  -- Extractors that all succeed, each on the parts that the one before it left.
  pub data Extracts : List (FromRequestParts P V E) → P → List V → P → Type ℓ where
    nothing : {p : P} → Extracts [] p [] p
    one :
        {f : FromRequestParts P V E} {fs : List (FromRequestParts P V E)} {p q r : P} {v : V}
        {vs : List V}
        → f p ≡ (q, ok v)
        → Extracts fs q vs r
        → Extracts (f ∷ fs) p (v ∷ vs) r

  -- The first extractor that fails does so on the parts that those before it left.
  pub data Rejects : List (FromRequestParts P V E) → P → E → Type ℓ where
    here :
        {f : FromRequestParts P V E} {fs : List (FromRequestParts P V E)} {p q : P} {e : E}
        → f p ≡ (q, err e)
        → Rejects (f ∷ fs) p e
    later :
        {f : FromRequestParts P V E} {fs : List (FromRequestParts P V E)} {p q : P} {v : V} {e : E}
        → f p ≡ (q, ok v)
        → Rejects fs q e
        → Rejects (f ∷ fs) p e

  parts_cases :
      (r : P × Result V E)
      → ((q : P) × (v : V) × (r ≡ (q, ok v))) ⊎ ((q : P) × (e : E) × (r ≡ (q, err e)))
  parts_cases (q, ok v) = inl (q, v, refl)
  parts_cases (q, err e) = inr (q, e, refl)

  tuple_parts_cases :
      (fs : List (FromRequestParts P V E)) (p : P)
      → ((vs : List V) × (q : P) × Extracts fs p vs q × (tuple_parts fs p ≡ (q, ok vs)))
        ⊎ ((e : E) × (q : P) × Rejects fs p e × (tuple_parts fs p ≡ (q, err e)))
  unfolding tuple_parts then_parts cons_result
  tuple_parts_cases [] p = inl ([], p, nothing, refl)
  tuple_parts_cases (f ∷ fs) p = elim (parts_cases (f p)) [
    | inr (q, e, h) ↦ inr (e, q, here h, rw h refl)
    | inl (q, v, h) ↦ elim (tuple_parts_cases fs q) [
      | inl (vs, r, k, t) ↦ inl (v ∷ vs, r, one h k, rw (h, t) refl)
      | inr (e, r, k, t) ↦ inr (e, r, later h k, rw (h, t) refl)
    ]
  ]

  pub tuple_request_cases :
      {B : Type ℓ} (fs : List (FromRequestParts P V E)) (last : FromRequest P B V E) (p : P) (b : B)
      → ((vs : List V) × (v : V) × (q : P) × Extracts fs p vs q
          × (last (q, b) ≡ ok v)
          × (tuple_request fs last (p, b) ≡ ok (vs ++ v ∷ [])))
        ⊎ ((e : E) × (Rejects fs p e
              ⊎ ((vs : List V) × (q : P) × Extracts fs p vs q × (last (q, b) ≡ err e)))
            × (tuple_request fs last (p, b) ≡ err e))
  unfolding tuple_request then_last add_last
  tuple_request_cases fs last p b = elim (tuple_parts_cases fs p) [
    | inr (e, q, k, t) ↦ inr (e, inl k, rw t refl)
    | inl (vs, q, k, t) ↦ elim (Result-cases (last (q, b))) [
      | inl (v, h) ↦ inl (vs, v, q, k, h, rw (t, h) refl)
      | inr (e, h) ↦ inr (e, inr (vs, q, k, h), rw (t, h) refl)
    ]
  ]
