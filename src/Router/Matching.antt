-- ===== src/Router/Matching.antt =====
-- router.rs: `match_route` and `call_opt` on a router that was set up.
use ftl.Prelude.{
  ℕ, ◌≤◌, ◌<◌, ◌≡◌, ◌⊎◌, ◌↔◌, inl, inr, ◌∙◌, Bool, true, false, none, some, List, ok, is_some,
  Option-cases, arith,
}
use ftl.Http.{Text, Method}
use ftl.Table.{Table}
use ftl.Router.{
  Matchit, r_any, slot_at, Route, Routing, new, Setup, build, or_any, lookup_path, find_node,
  match_route, call_opt,
}
use ftl.Router.Routes.{new-IsRouted, build-IsRouted}

module _ {P S : Type 0} (matchit : Matchit P) (table : Table ℕ (Route S)) where
  find_node-stored :
      (method : Method) (path : Text) (r : Routing matchit table) (j : ℕ) (ps : P)
      → find_node matchit table method path r ≡ some (j, ps)
      → matchit.Stored (r.trees (slot_at method).0) j ⊎ matchit.Stored (r.trees r_any) j
  unfolding find_node
  find_node-stored method path r j ps e =
      elim (Option-cases (matchit.find path (r.trees (slot_at method).0))) [
        | inl missed ↦
            inr (matchit.stored-find path (r.trees r_any) j ps (second (slot_at method).1 missed e))
        | inr (m, found) ↦ inl (
            matchit.stored-find path (r.trees (slot_at method).0) j ps
              (found ∙ rw (found, or_any) at e))
      ]
    where
      second :
          (b : Bool)
          → matchit.find path (r.trees (slot_at method).0) ≡ none
          → or_any matchit table b
              (matchit.find path (r.trees (slot_at method).0))
              (matchit.find path (r.trees r_any))
            ≡ some (j, ps)
          → matchit.find path (r.trees r_any) ≡ some (j, ps)
      second true h k = ground arith
      second false h k = ground arith

  -- The number of a match is one that a call of `insert` was given, so it has its route.
  find_node-routed :
      (cs : List (Setup S)) (r : Routing matchit table) (method : Method) (path : Text) (j : ℕ)
      (ps : P)
      → build matchit table cs (new matchit table) ≡ some r
      → find_node matchit table method path r ≡ some (j, ps)
      → (1 ≤ j) × (j < r.counter) × (is_some (table.get j r.routes) ≡ true)
  find_node-routed cs r method path j ps built found =
      let v =
        build-IsRouted matchit table cs (new matchit table) r (new-IsRouted matchit table) built in
      elim (find_node-stored method path r j ps found) [
        | inl own ↦ v.stored (slot_at method).0 j own
        | inr other ↦ v.stored r_any j other
      ]

  -- For a router set up from an empty one by any calls that do not panic, whenever a matcher finds
  -- a node for the method and the path that is looked up, the node's number is at least 1 and below
  -- the counter, it has its route in the table, and `match_route` gives this route with the
  -- parameters found, never the fallback.
  pub match_route-ok :
      (cs : List (Setup S)) (r : Routing matchit table) (method : Method) (path : Text) (j : ℕ)
      (ps : P)
      → build matchit table cs (new matchit table) ≡ some r
      → find_node matchit table method (lookup_path matchit table r.trim_trailing_slash path) r
        ≡ some (j, ps)
      → (route : Route S) × (table.get j r.routes ≡ some route)
        × (1 ≤ j)
        × (j < r.counter)
        × (match_route matchit table method path r ≡ ok (route, ps))
  unfolding match_route
  match_route-ok cs r method path j ps built found =
      let (low, high, there) =
        find_node-routed cs r method (lookup_path matchit table r.trim_trailing_slash path) j ps
          built found in
      elim (Option-cases (table.get j r.routes)) [
        | inl gone ↦ absurd (ground arith)
        | inr (route, kept) ↦ (route, kept, low, high, ground arith)
      ]

  call_opt_missed :
      (method : Method) (path : Text) (r : Routing matchit table)
      → find_node matchit table method (lookup_path matchit table r.trim_trailing_slash path) r
        ≡ none
      → (call_opt matchit table method path r ≡ none) ↔ (table.get 0 r.routes ≡ none)
  unfolding call_opt match_route
  call_opt_missed method path r missed = ground arith

  pub call_opt_found :
      (method : Method) (path : Text) (r : Routing matchit table) (route : Route S) (ps : P)
      → match_route matchit table method path r ≡ ok (route, ps)
      → call_opt matchit table method path r ≡ some (route.service, some (ps, route.path))
  unfolding call_opt
  call_opt_found method path r route ps m = ground arith

  -- For a router set up from an empty one by any calls that do not panic, a request is answered by
  -- no service exactly when no matcher finds a node for it and there is no fallback.
  pub call_opt-none_iff :
      (cs : List (Setup S)) (r : Routing matchit table) (method : Method) (path : Text)
      → build matchit table cs (new matchit table) ≡ some r
      → (call_opt matchit table method path r ≡ none) ↔ (
          (find_node matchit table method (lookup_path matchit table r.trim_trailing_slash path) r
            ≡ none)
          × (table.get 0 r.routes ≡ none))
  call_opt-none_iff cs r method path built =
      elim (Option-cases
        (find_node matchit table method (lookup_path matchit table r.trim_trailing_slash path) r)) [
          | inl missed ↦
              let both = call_opt_missed method path r missed in
              (λ e. (missed, both.0 e), λ h. both.1 h.1)
          | inr ((j, ps), found) ↦
              let (route, _, _, _, m) = match_route-ok cs r method path j ps built found in
              let served = call_opt_found method path r route ps m in
              (λ e. absurd (ground arith), λ h. absurd (ground arith))
        ]
