-- ===== src/Router.antt =====
-- router.rs. The `matchit` router is a parameter with its documented behaviour, the table of routes
-- is a `HashMap` (see Table), a handler with its state is the service that it is made into. A panic
-- (a path without a slash, a route that `matchit` refuses) is `none`.
use ftl.Prelude.{
  ℕ, zero, suc, ◌+◌, ◌≡◌, ◌≢◌, ◌⊎◌, Bool, true, false, not, ◌&&◌, Option, none, some, List, [], ◌∷◌,
  Result, ok, err, if◌then◌else◌, ◌>>=◌,
}
use mathlib.Core.Logic.{ite}
use ftl.Http.{Text, Method, get, post, put, delete, patch, head, connect, options, trace, extension}
use ftl.Strings.{codes, text_eq, starts_with, trim_end_matches}
use ftl.Table.{Table}
pub mod Matchers
pub mod Routes
pub mod Matching
pub mod Calls

-- `matchit::Router<NodeId>` with its parameters `P`: a match gives a value that was inserted.
pub record Matchit (P : Type 0) : Type 1 where
  pub Tree : Type 0
  pub empty : Tree
  pub insert : Text → ℕ → Tree → Option Tree
  pub find : Text → Tree → Option (ℕ × P)
  pub Stored : Tree → ℕ → Type 0
  pub stored-empty : (j : ℕ) → ¬ Stored empty j
  pub stored-insert :
      (p : Text) (i j : ℕ) (t u : Tree) → insert p i t ≡ some u → Stored u j → (j ≡ i) ⊎ Stored t j
  pub stored-find : (p : Text) (t : Tree) (j : ℕ) (ps : P) → find p t ≡ some (j, ps) → Stored t j

-- The fields `r_get` to `r_trace`, and `r_any`.
pub data Slot : Type 0 where
  r_get r_post r_put r_delete r_patch r_head r_connect r_options r_trace r_any : Slot

unfoldable pub Slot-discrete : Discrete Slot
Slot-discrete = hlevel

-- The matcher that a route is added to.
unfoldable pub slot : Method → Slot
slot get = r_get
slot post = r_post
slot put = r_put
slot delete = r_delete
slot patch = r_patch
slot head = r_head
slot connect = r_connect
slot options = r_options
slot trace = r_trace
slot (extension _) = r_any

-- The matcher that a request is looked up in, and `any`.
unfoldable pub slot_at : Method → Slot × Bool
slot_at get = (r_get, false)
slot_at post = (r_post, false)
slot_at put = (r_put, false)
slot_at delete = (r_delete, false)
slot_at patch = (r_patch, false)
slot_at head = (r_head, false)
slot_at connect = (r_connect, false)
slot_at options = (r_options, false)
slot_at trace = (r_trace, false)
slot_at (extension _) = (r_any, true)

pub record Route (S : Type 0) : Type 0 where
  pub path : Text
  pub service : S

pub record Router (Tree Map : Type 0) : Type 0 where
  pub trees : Slot → Tree
  pub routes : Map
  pub counter : ℕ
  pub trim_trailing_slash : Bool

abbrev pub set_slot : {Tree : Type 0} → Slot → Tree → (Slot → Tree) → Slot → Tree
set_slot s t f r = ite (Slot-discrete s r) t (f r)

module _ {P S : Type 0} (matchit : Matchit P) (table : Table ℕ (Route S)) where
  abbrev pub Routing : Type 0
  Routing = Router matchit.Tree table.Map

  -- `with_state`
  unfoldable pub new : Routing
  new = record {
    trees = λ _. matchit.empty;
    routes = table.empty;
    counter = 1;
    trim_trailing_slash = true;
  }

  unfoldable pub set_trim : Bool → Routing → Routing
  set_trim trim r = record r { trim_trailing_slash = trim }

  -- `router.insert(path, id).unwrap()` for each method.
  unfoldable pub add_methods :
      Text → ℕ → List Method → (Slot → matchit.Tree) → Option (Slot → matchit.Tree)
  add_methods path id [] trees = some trees
  add_methods path id (m ∷ ms) trees = do
    t ← matchit.insert path id (trees (slot m))
    add_methods path id ms (set_slot (slot m) t trees)

  -- The route under the next number.
  abbrev add_route : Text → S → Routing → Routing
  add_route path service r = record r {
    counter = r.counter + 1;
    routes = table.insert r.counter (record { path = path; service = service }) r.routes;
  }

  -- `_on`
  unfoldable pub on_methods : Text → List Method → S → Routing → Option Routing
  on_methods path methods service r = do
    trees ← add_methods path r.counter methods r.trees
    some (record (add_route path service r) { trees = trees })

  unfoldable pub on : List Method → Text → S → Routing → Option Routing
  unfolding on_methods
  on methods path service r =
      if starts_with path (codes "/") then on_methods path methods service r else none

  unfoldable pub any : Text → S → Routing → Option Routing
  any path service r =
      if starts_with path (codes "/")
      then (do
        t ← matchit.insert path r.counter (r.trees r_any)
        some (record (add_route path service r) { trees = set_slot r_any t r.trees }))
      else none

  unfoldable pub fallback : S → Routing → Routing
  fallback service r = record r {
    routes = table.insert 0 (record { path = []; service = service }) r.routes;
  }

  unfoldable pub ws : Text → S → Routing → Option Routing
  unfolding on
  ws path service r = on (get ∷ connect ∷ []) path service r

  -- `get`, `post` and the other single methods.
  unfoldable pub on_one : Method → Text → S → Routing → Option Routing
  unfolding on
  on_one method path service r = on (method ∷ []) path service r

  -- The path that is looked up.
  unfoldable pub lookup_path : Bool → Text → Text
  lookup_path trim path =
      if trim && not (text_eq path (codes "/")) then trim_end_matches b'/' path else path

  abbrev or_any : Bool → Option (ℕ × P) → Option (ℕ × P) → Option (ℕ × P)
  or_any any_slot (some m) other = some m
  or_any true none other = none
  or_any false none other = other

  -- The number and the parameters that are found.
  unfoldable pub find_node : Method → Text → Routing → Option (ℕ × P)
  find_node method path r =
      or_any (slot_at method).1 (matchit.find path (r.trees (slot_at method).0))
        (matchit.find path (r.trees r_any))

  abbrev with_route :
      Option (Route S) → Option (Route S) → P → Result (Route S × P) (Option (Route S))
  with_route (some route) other ps = ok (route, ps)
  with_route none other ps = err other

  unfoldable pub match_route : Method → Text → Routing → Result (Route S × P) (Option (Route S))
  unfolding find_node
  match_route method path r = elim (find_node method (lookup_path r.trim_trailing_slash path) r) [
    | some (j, ps) ↦ with_route (table.get j r.routes) (table.get 0 r.routes) ps
    | none ↦ err (table.get 0 r.routes)
  ]

  -- `call_opt`, up to the call: the service, with the parameters and the `MatchedPath` that the
  -- request is given; `none` is answered with `Error::NotFound` by `call`.
  unfoldable pub call_opt : Method → Text → Routing → Option (S × Option (P × Text))
  call_opt method path r = elim (match_route method path r) [
    | ok (route, ps) ↦ some (route.service, some (ps, route.path))
    | err (some route) ↦ some (route.service, none)
    | err none ↦ none
  ]

-- The calls that set a router up, in the order in which they are made.
pub data Setup (S : Type 0) : Type 0 where
  on_setup : List Method → Text → S → Setup S
  any_setup : Text → S → Setup S
  fallback_setup : S → Setup S
  trim_setup : Bool → Setup S

module _ {P S : Type 0} (matchit : Matchit P) (table : Table ℕ (Route S)) where
  unfoldable pub apply : Setup S → Routing matchit table → Option (Routing matchit table)
  apply (on_setup ms path service) r = on matchit table ms path service r
  apply (any_setup path service) r = any matchit table path service r
  apply (fallback_setup service) r = some (fallback matchit table service r)
  apply (trim_setup b) r = some (set_trim matchit table b r)

  unfoldable pub build : List (Setup S) → Routing matchit table → Option (Routing matchit table)
  build [] r = some r
  build (c ∷ cs) r = apply c r >>= λ s. build cs s
