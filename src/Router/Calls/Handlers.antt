-- ===== src/Router/Calls/Handlers.antt =====
-- router.rs and handler.rs together: what a request that reaches a handler is answered with.
use ftl.Prelude.{
  ℕ, ◌≡◌, ◌⊎◌, inl, inr, refl, ap, ◌∙◌, Option, some, List, [], ◌∷◌, ◌++◌, Result, ok, err,
}
use ftl.Http.{Text}
use ftl.Table.{Table}
use ftl.Extractors.{FromRequestParts, FromRequest, tuple_request}
use ftl.Extractors.Tuples.{Extracts, Rejects, tuple_request_cases}
use ftl.Services.{
  Outcome, panicked, returned, map_outcome, Service, call_extracted, call_function,
  handler_into_response, handler_service,
}
use ftl.Extract.Errors.{Error}
use ftl.Params.Decoded.{Extended, insert_url_params-Extended}
use ftl.Router.{Matchit, Route, Routing, match_route}
use ftl.Router.Matching.{call_opt_found}
use ftl.Router.Calls.{Parts, some_response, given, call_found, respond_opt, or_not_found, respond}

-- The parts that the service of a matched route is called on.
pub record IsGiven {X : Type 0} (decode : Text → Option Text) (path : Text)
    (ps : List (Text × Text)) (parts start : Parts X) : Type 0 where
  pub method : start.method ≡ parts.method
  pub request_path : start.path ≡ parts.path
  pub others : start.others ≡ parts.others
  pub matched_path : start.matched_path ≡ some path
  pub url_params : Extended decode parts.url_params ps start.url_params

given-IsGiven :
    {X : Type 0} (decode : Text → Option Text) (path : Text) (ps : List (Text × Text))
    (parts : Parts X)
    → IsGiven decode path ps parts (given decode (some (ps, path)) parts)
unfolding given
given-IsGiven decode path ps parts = record {
  method = refl;
  request_path = refl;
  others = refl;
  matched_path = refl;
  url_params = insert_url_params-Extended decode parts.url_params ps;
}

module _ {X B R S V A : Type 0} (decode : Text → Option Text)
    (matchit : Matchit (List (Text × Text))) (table : Table ℕ (Route (Service (Parts X × B) R ⊥)))
    (fs : S → List (FromRequestParts (Parts X) V Error))
    (last : S → FromRequest (Parts X) B V Error) (f : List V → Outcome A)
    (into_response : Result A Error → R) (state : S) where
  -- The service that a function with extractors is made into.
  abbrev pub function_service : Service (Parts X × B) R ⊥
  function_service =
      handler_service (handler_into_response into_response (call_function fs last f)) state

  -- What the service makes of what its extractors give.
  abbrev answer : Result (List V) Error → Outcome (Result R Error)
  answer (ok vs) = map_outcome (λ a. ok (into_response (ok a))) (f vs)
  answer (err e) = returned (ok (into_response (err e)))

  answered :
      (x : Result (List V) Error)
      → map_outcome or_not_found (
          map_outcome some_response
            (map_outcome (λ a. ok a) (map_outcome into_response (call_extracted f x))))
        ≡ answer x
  unfolding call_extracted or_not_found
  answered (err e) = refl
  answered (ok vs) = done (f vs)
    where
      done :
          (o : Outcome A)
          → map_outcome or_not_found (
              map_outcome some_response
                (map_outcome (λ a. ok a) (map_outcome into_response (map_outcome (λ a. ok a) o))))
            ≡ map_outcome (λ a. ok (into_response (ok a))) o
      done panicked = refl
      done (returned a) = refl

  respond-answer :
      (r : Routing matchit table) (parts : Parts X) (body : B) (path : Text)
      (ps : List (Text × Text))
      → match_route matchit table parts.method parts.path r
        ≡ ok (record { path = path; service = function_service }, ps)
      → respond decode matchit table r (parts, body)
        ≡ answer
            (tuple_request (fs state) (last state) (given decode (some (ps, path)) parts, body))
  unfolding respond respond_opt call_found handler_service handler_into_response call_function
  respond-answer r parts body path ps found =
      let found_call =
        call_opt_found matchit table parts.method parts.path r
          (record { path = path; service = function_service }) ps found in
      ap (λ o. map_outcome or_not_found (call_found decode o parts body)) found_call
      ∙ answered
          (tuple_request (fs state) (last state) (given decode (some (ps, path)) parts, body))

  -- Whenever a router matches a request to the service of a function with extractors, the
  -- extractors start from the request's parts with the matched path set and the route's parameters
  -- added, decoded, or the key of the first that is not decoded in their place; each runs on the
  -- parts that the one before it left. Either all of them and the last succeed, and the answer is
  -- the response made of what the function comes to on their values in order, a panic being passed
  -- on; or one fails, and the answer is the response made of the first failure's error.
  pub respond-function :
      (r : Routing matchit table) (parts : Parts X) (body : B) (path : Text)
      (ps : List (Text × Text))
      → match_route matchit table parts.method parts.path r
        ≡ ok (record { path = path; service = function_service }, ps)
      → (start : Parts X) × IsGiven decode path ps parts start
        × (((vs : List V) × (v : V) × (q : Parts X) × Extracts (fs state) start vs q
              × (last state (q, body) ≡ ok v)
              × (respond decode matchit table r (parts, body)
                  ≡ map_outcome (λ a. ok (into_response (ok a))) (f (vs ++ v ∷ []))))
            ⊎ ((e : Error) × (Rejects (fs state) start e
                  ⊎ ((vs : List V) × (q : Parts X) × Extracts (fs state) start vs q
                      × (last state (q, body) ≡ err e)))
                × (respond decode matchit table r (parts, body)
                    ≡ returned (ok (into_response (err e))))))
  respond-function r parts body path ps found =
      let start : Parts X = given decode (some (ps, path)) parts in
      let a = respond-answer r parts body path ps found in
      (
        start,
        given-IsGiven decode path ps parts,
        elim (tuple_request_cases (fs state) (last state) start body) [
          | inl (vs, v, q, k, l, t) ↦ inl (vs, v, q, k, l, a ∙ ap answer t)
          | inr (e, k, t) ↦ inr (e, k, a ∙ ap answer t)
        ],
      )
