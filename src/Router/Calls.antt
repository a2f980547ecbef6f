-- ===== src/Router/Calls.antt =====
-- router.rs: a router as a service, `route_layer` and `finish`. `HashMap::into_iter`, `map` and
-- `collect` are a parameter, a map of the routes from one table to another.
use ftl.Prelude.{ℕ, Option, none, some, List, Result, ok, err, ◌≡◌}
use ftl.Http.{Text, Method}
use ftl.Table.{Table}
use ftl.Params.{UrlParams, insert_url_params}
use ftl.Services.{Outcome, returned, map_outcome, Service, convert_body}
use ftl.Extract.Errors.{Error, not_found}
use ftl.Router.{Matchit, Route, Router, Routing, call_opt}
pub mod Layers
pub mod Handlers

-- The parts of a request: what the router reads and sets, and the others.
pub record Parts (X : Type 0) : Type 0 where
  pub method : Method
  pub path : Text
  pub url_params : Option UrlParams
  pub matched_path : Option Text
  pub others : X

unfoldable pub wrap : {S T : Type 0} → (S → T) → Route S → Route T
wrap layer route = record { path = route.path; service = layer route.service }

module _ {P S T : Type 0} (matchit : Matchit P) (table : Table ℕ (Route S))
    (layered : Table ℕ (Route T)) (map_routes : (Route S → Route T) → table.Map → layered.Map) where
  unfoldable pub route_layer : (S → T) → Routing matchit table → Routing matchit layered
  unfolding wrap
  route_layer layer r = record {
    trees = r.trees;
    routes = map_routes (wrap layer) r.routes;
    counter = r.counter;
    trim_trailing_slash = r.trim_trailing_slash;
  }

module _ {X : Type 0} (decode : Text → Option Text) where
  -- What the request is given for the route that was matched.
  unfoldable pub given : Option (List (Text × Text) × Text) → Parts X → Parts X
  given none parts = parts
  given (some (ps, path)) parts = record parts {
    url_params = insert_url_params decode parts.url_params ps;
    matched_path = some path;
  }

abbrev pub some_response : {R E : Type 0} → Result R E → Result (Option R) E
some_response (ok res) = ok (some res)
some_response (err e) = err e

module _ {X B R E : Type 0} (decode : Text → Option Text) where
  unfoldable pub call_found :
      Option (Service (Parts X × B) R E × Option (List (Text × Text) × Text))
      → Parts X
      → B
      → Outcome (Result (Option R) E)
  unfolding given
  call_found none parts body = returned (ok none)
  call_found (some (service, extras)) parts body =
      map_outcome some_response (service (given decode extras parts, body))

  module _ (matchit : Matchit (List (Text × Text)))
      (table : Table ℕ (Route (Service (Parts X × B) R E))) where
    -- `call_opt`, with the call of the service.
    unfoldable pub respond_opt : Routing matchit table → Service (Parts X × B) (Option R) E
    unfolding call_found
    respond_opt r (parts, body) =
        call_found (call_opt matchit table parts.method parts.path r) parts body

-- The error of the services is `Infallible`.
unfoldable pub or_not_found : {R : Type 0} → Result (Option R) ⊥ → Result R Error
or_not_found (ok (some res)) = ok res
or_not_found (ok none) = err not_found
or_not_found (err e) = elim e [ ]

module _ {X B R : Type 0} (decode : Text → Option Text) (matchit : Matchit (List (Text × Text)))
    (table : Table ℕ (Route (Service (Parts X × B) R ⊥))) where
  -- `call`
  unfoldable pub respond : Routing matchit table → Service (Parts X × B) R Error
  unfolding respond_opt or_not_found
  respond r req = map_outcome or_not_found (respond_opt decode matchit table r req)

  module _ {C : Type 0} (converted : Table ℕ (Route (Service (Parts X × C) R ⊥)))
      (map_routes : (Route (Service (Parts X × B) R ⊥) → Route (Service (Parts X × C) R ⊥))
        → table.Map
        → converted.Map)
      (from_any_body : C → B) where
    unfoldable pub finish : Routing matchit table → Routing matchit converted
    unfolding route_layer convert_body
    finish r = route_layer matchit table converted map_routes (convert_body from_any_body) r
