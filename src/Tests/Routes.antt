-- ===== src/Tests/Routes.antt =====
-- Runs of router.rs, on matchers of literal paths.
use ftl.Prelude.{ℕ, ◌≤◌, ◌<◌, ◌≡◌, refl, Option, none, some, [], ◌∷◌, List, ok}
use native.Mathlib.Decide.{ℕ_discrete}
use ftl.Http.{Method, get, post, put, delete, patch, head, connect, options, trace, extension}
use ftl.Strings.{codes, text_eq, starts_with, trim_end_matches}
use ftl.Table.{Table, function_table}
use ftl.Router.{
  Route, Routing, Setup, on_setup, any_setup, fallback_setup, new, on, on_methods, add_methods, any,
  fallback, set_trim, build, apply, slot, slot_at, Slot-discrete, find_node, lookup_path,
  match_route, call_opt,
}
use ftl.Router.Matchers.{exact}
use ftl.Router.Matching.{match_route-ok}

ran : Unit {0}
unfolding ℕ_discrete Slot-discrete text_eq starts_with trim_end_matches new on on_methods
    add_methods any fallback set_trim build apply slot slot_at find_node lookup_path match_route
    call_opt
ran = tt

abbrev routes : Table ℕ (Route ℕ)
routes = function_table ℕ_discrete

abbrev calls : List (Setup ℕ)
calls =
    on_setup (get ∷ post ∷ []) (codes "/a") 10 ∷ any_setup (codes "/b") 20 ∷ fallback_setup 30 ∷ []

abbrev of : Option (Routing exact routes) → Routing exact routes
unfolding ran
of none = new exact routes
of (some r) = r

abbrev site : Routing exact routes
unfolding ran
site = of (build exact routes calls (new exact routes))

call_opt_tests :
    (call_opt exact routes post (codes "/a/") site ≡ some (10, some (tt, codes "/a")))
    × (call_opt exact routes get (codes "/b") site ≡ some (20, some (tt, codes "/b")))
    × (call_opt exact routes get (codes "/c") site ≡ some (30, none))
unfolding ran
call_opt_tests = (refl, refl, refl)

match_route-ok_example :
    (route : Route ℕ) × (routes.get 1 site.routes ≡ some route)
    × (1 ≤ 1)
    × (1 < site.counter)
    × (match_route exact routes post (codes "/a/") site ≡ ok (route, tt))
unfolding ran
match_route-ok_example = match_route-ok exact routes calls site post (codes "/a/") 1 tt refl refl

-- A route is added to the matcher that its method is looked up in.
slot-slot_at_test : (m : Method) → slot m ≡ (slot_at m).0
unfolding slot slot_at
slot-slot_at_test get = refl
slot-slot_at_test post = refl
slot-slot_at_test put = refl
slot-slot_at_test delete = refl
slot-slot_at_test patch = refl
slot-slot_at_test head = refl
slot-slot_at_test connect = refl
slot-slot_at_test options = refl
slot-slot_at_test trace = refl
slot-slot_at_test (extension e) = refl
