-- ===== src/Params/Decoded.antt =====
-- params.rs: what the parameters of one route decode to, and what a request then holds.
use ftl.Prelude.{
  Option, none, some, Option-cases, List, [], ◌∷◌, ◌++◌, ◌≡◌, ◌⊎◌, inl, inr, refl, ok, err,
}
use ftl.Http.{Text}
use ftl.Params.{UrlParams, params, invalid_utf8, keep, add, collect, store, insert_url_params}

module _ (decode : Text → Option Text) where
  -- Every value is decoded; the keys stay.
  pub data Decodes : List (Text × Text) → List (Text × Text) → Type 0 where
    nothing : Decodes [] []
    one :
        {k v w : Text} {ps qs : List (Text × Text)}
        → decode v ≡ some w
        → Decodes ps qs
        → Decodes ((k, v) ∷ ps) ((k, w) ∷ qs)

  -- The key of the first value that is not decoded.
  pub data FailsAt : List (Text × Text) → Text → Type 0 where
    here : {k v : Text} {ps : List (Text × Text)} → decode v ≡ none → FailsAt ((k, v) ∷ ps) k
    later :
        {k v w j : Text} {ps : List (Text × Text)}
        → decode v ≡ some w
        → FailsAt ps j
        → FailsAt ((k, v) ∷ ps) j

  -- What a request holds after a route's parameters: a failure stays, the decoded parameters come
  -- after those that it held, or the first key that fails is kept in their place.
  pub data Extended : Option UrlParams → List (Text × Text) → Option UrlParams → Type 0 where
    failed :
        {k : Text} {ps : List (Text × Text)}
        → Extended (some (invalid_utf8 k)) ps (some (invalid_utf8 k))
    first : {ps qs : List (Text × Text)} → Decodes ps qs → Extended none ps (some (params qs))
    more :
        {current ps qs : List (Text × Text)}
        → Decodes ps qs
        → Extended (some (params current)) ps (some (params (current ++ qs)))
    first_fails :
        {k : Text} {ps : List (Text × Text)}
        → FailsAt ps k
        → Extended none ps (some (invalid_utf8 k))
    more_fails :
        {k : Text} {current ps : List (Text × Text)}
        → FailsAt ps k
        → Extended (some (params current)) ps (some (invalid_utf8 k))

  pub collect_cases :
      (ps : List (Text × Text))
      → ((qs : List (Text × Text)) × Decodes ps qs × (collect decode ps ≡ ok qs))
        ⊎ ((k : Text) × FailsAt ps k × (collect decode ps ≡ err k))
  unfolding collect add keep
  collect_cases [] = inl ([], nothing, refl)
  collect_cases ((k, v) ∷ ps) = elim (Option-cases (decode v)) [
    | inl h ↦ inr (k, here h, rw h refl)
    | inr (w, h) ↦ elim (collect_cases ps) [
      | inl (qs, d, e) ↦ inl ((k, w) ∷ qs, one h d, rw (h, e) refl)
      | inr (j, f, e) ↦ inr (j, later h f, rw (h, e) refl)
    ]
  ]

  pub insert_url_params-Extended :
      (current : Option UrlParams) (ps : List (Text × Text))
      → Extended current ps (insert_url_params decode current ps)
  unfolding insert_url_params store
  insert_url_params-Extended (some (invalid_utf8 k)) ps = failed
  insert_url_params-Extended none ps = elim (collect_cases ps) [
    | inl (qs, d, e) ↦ rw e (first d)
    | inr (k, f, e) ↦ rw e (first_fails f)
  ]
  insert_url_params-Extended (some (params current)) ps = elim (collect_cases ps) [
    | inl (qs, d, e) ↦ rw e (more d)
    | inr (k, f, e) ↦ rw e (more_fails f)
  ]
