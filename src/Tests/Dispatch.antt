-- ===== src/Tests/Dispatch.antt =====
-- Runs of router.rs with handler.rs and its layers.
use ftl.Prelude.{
  ℕ, ◌+◌, ◌≡◌, ◌⊎◌, refl, Option, none, some, [], ◌∷◌, List, ◌++◌, Result, ok, err, length,
}
use native.Mathlib.Decide.{ℕ_discrete}
use ftl.Http.{Text, get}
use ftl.Strings.{codes, text_eq, starts_with, trim_end_matches}
use ftl.Table.{Table, function_table}
use ftl.Extractors.{FromRequestParts, FromRequest, tuple_request}
use ftl.Extractors.Tuples.{Extracts, Rejects}
use ftl.Services.{
  Outcome, returned, map_outcome, Service, handler_service, handler_into_response, call_function,
}
use ftl.Extract.Errors.{Error}
use ftl.Router.{
  Route, Routing, new, on, on_methods, add_methods, slot, slot_at, Slot-discrete, find_node,
  lookup_path, match_route, call_opt,
}
use ftl.Router.Matchers.{exact_with}
use ftl.Router.Calls.{Parts, given, finish, respond}
use ftl.Router.Calls.Layers.{map_option, respond-finish}
use ftl.Router.Calls.Handlers.{function_service, IsGiven, respond-function}

ran : Unit {0}
unfolding ℕ_discrete Slot-discrete text_eq starts_with trim_end_matches new on on_methods
    add_methods slot slot_at find_node lookup_path match_route given
ran = tt

-- A handler of the request's matched path and of its body's length, which answers with their sum.
abbrev path_length : Option Text → ℕ
path_length none = 0
path_length (some t) = length t

abbrev sum_of : List ℕ → ℕ
sum_of [] = 0
sum_of (n ∷ ns) = n + sum_of ns

abbrev extractors : Unit {0} → List (FromRequestParts (Parts ℕ) ℕ Error)
extractors _ = (λ p. (p, ok (path_length p.matched_path))) ∷ []

abbrev body_length : Unit {0} → FromRequest (Parts ℕ) Text ℕ Error
body_length _ (p, b) = ok (length b)

abbrev sum_handler : List ℕ → Outcome ℕ
sum_handler ns = returned (sum_of ns)

abbrev to_response : Result ℕ Error → ℕ
to_response (ok n) = n
to_response (err e) = 400

abbrev Served : Type 0
Served = Service (Parts ℕ × Text) ℕ ⊥

abbrev matchers : List (Text × Text)
matchers = (codes "id", codes "7") ∷ []

abbrev routes : Table ℕ (Route Served)
routes = function_table ℕ_discrete

abbrev converted : Table ℕ (Route (Service (Parts ℕ × ℕ) ℕ ⊥))
converted = function_table ℕ_discrete

abbrev sum_service : Served
sum_service =
    function_service (λ t. some t) (exact_with matchers) routes extractors body_length sum_handler
      to_response tt

abbrev of : Option (Routing (exact_with matchers) routes) → Routing (exact_with matchers) routes
unfolding ran
of none = new (exact_with matchers) routes
of (some r) = r

abbrev site : Routing (exact_with matchers) routes
unfolding ran
site = of (
    on (exact_with matchers) routes (get ∷ []) (codes "/a") sum_service
      (new (exact_with matchers) routes))

abbrev request : Parts ℕ
request = record {
  method = get;
  path = codes "/a/";
  url_params = none;
  matched_path = none;
  others = 0;
}

abbrev zeros : ℕ → Text
zeros n = b'0' ∷ []

respond-finish_example :
    respond
      (λ t. some t)
      (exact_with matchers)
      converted
      (finish
        (λ t. some t)
        (exact_with matchers)
        routes
        converted
        (λ f m k. map_option f (m k))
        zeros
        site)
      (request, 5)
    ≡ respond (λ t. some t) (exact_with matchers) routes site (request, codes "0")
respond-finish_example =
    respond-finish (λ t. some t) (exact_with matchers) routes converted
      (λ f m k. map_option f (m k)) (λ f m k. refl) zeros site request 5

matched :
    match_route (exact_with matchers) routes get (codes "/a/") site
    ≡ ok (record { path = codes "/a"; service = sum_service }, matchers)
unfolding ran
matched = refl

-- The path has two letters and the body three.
respond_test :
    respond (λ t. some t) (exact_with matchers) routes site (request, codes "abc") ≡ returned (ok 5)
unfolding ran respond call_opt handler_service handler_into_response call_function tuple_request
respond_test = refl

respond-function_example :
    (start : Parts ℕ) × IsGiven (λ t. some t) (codes "/a") matchers request start
    × (((vs : List ℕ) × (v : ℕ) × (q : Parts ℕ) × Extracts (extractors tt) start vs q
          × (body_length tt (q, codes "abc") ≡ ok v)
          × (respond (λ t. some t) (exact_with matchers) routes site (request, codes "abc")
              ≡ map_outcome (λ a. ok (to_response (ok a))) (sum_handler (vs ++ v ∷ []))))
        ⊎ ((e : Error) × (Rejects (extractors tt) start e
              ⊎ ((vs : List ℕ) × (q : Parts ℕ) × Extracts (extractors tt) start vs q
                  × (body_length tt (q, codes "abc") ≡ err e)))
            × (respond (λ t. some t) (exact_with matchers) routes site (request, codes "abc")
                ≡ returned (ok (to_response (err e))))))
respond-function_example =
    respond-function (λ t. some t) (exact_with matchers) routes extractors body_length sum_handler
      to_response tt site request (codes "abc") (codes "/a") matchers matched
