-- ===== src/Router/Calls/Layers.antt =====
-- router.rs: a layer on the routes changes the services that are called, and nothing else.
use ftl.Prelude.{ℕ, ◌≡◌, refl, ap, ◌∙◌, inl, inr, Option, none, some, Option-cases, List, arith}
use ftl.Http.{Text, Method}
use ftl.Table.{Table}
use ftl.Services.{map_outcome, Service, convert_body}
use ftl.Router.{Matchit, Route, Routing, find_node, match_route, call_opt, lookup_path}
use ftl.Router.Calls.{
  Parts, wrap, route_layer, call_found, respond_opt, or_not_found, respond, finish,
}

abbrev pub map_option {ℓ κ} : {A : Type ℓ} {B : Type κ} → (A → B) → Option A → Option B
map_option f none = none
map_option f (some a) = some (f a)

module _ {P S T : Type 0} (matchit : Matchit P) (table : Table ℕ (Route S))
    (layered : Table ℕ (Route T)) (map_routes : (Route S → Route T) → table.Map → layered.Map)
    (mapped : (f : Route S → Route T) (m : table.Map) (k : ℕ)
      → layered.get k (map_routes f m) ≡ map_option f (table.get k m))
    (layer : S → T) where
  abbrev layered_router : Routing matchit table → Routing matchit layered
  layered_router r = route_layer matchit table layered map_routes layer r

  abbrev layered_call : Option (S × Option (P × Text)) → Option (T × Option (P × Text))
  layered_call none = none
  layered_call (some (s, extras)) = some (layer s, extras)

  find_node-layered :
      (method : Method) (path : Text) (r : Routing matchit table)
      → find_node matchit layered method
          (lookup_path matchit layered r.trim_trailing_slash path)
          (layered_router r)
        ≡ find_node matchit table method (lookup_path matchit table r.trim_trailing_slash path) r
  unfolding find_node lookup_path route_layer
  find_node-layered method path r = refl

  pub call_opt-route_layer :
      (method : Method) (path : Text) (r : Routing matchit table)
      → call_opt matchit layered method path (layered_router r)
        ≡ layered_call (call_opt matchit table method path r)
  unfolding call_opt match_route route_layer wrap
  call_opt-route_layer method path r =
      let same = find_node-layered method path r in
      let zeroth = mapped (wrap layer) r.routes 0 in
      elim (Option-cases
        (find_node matchit table method (lookup_path matchit table r.trim_trailing_slash path) r)) [
          | inl e ↦ ground (arith, same, zeroth)
          | inr ((j, ps), e) ↦ ground (arith, same, zeroth, mapped (wrap layer) r.routes j)
        ]

module _ {X B C R : Type 0} (decode : Text → Option Text) (matchit : Matchit (List (Text × Text)))
    (table : Table ℕ (Route (Service (Parts X × B) R ⊥)))
    (converted : Table ℕ (Route (Service (Parts X × C) R ⊥)))
    (map_routes : (Route (Service (Parts X × B) R ⊥) → Route (Service (Parts X × C) R ⊥))
      → table.Map
      → converted.Map)
    (mapped : (f : Route (Service (Parts X × B) R ⊥) → Route (Service (Parts X × C) R ⊥))
        (m : table.Map) (k : ℕ)
      → converted.get k (map_routes f m) ≡ map_option f (table.get k m))
    (from_any_body : C → B) where
  found_converted :
      (o : Option (Service (Parts X × B) R ⊥ × Option (List (Text × Text) × Text)))
      (parts : Parts X) (body : C)
      → call_found decode
          (layered_call matchit table converted map_routes mapped (convert_body from_any_body) o)
          parts
          body
        ≡ call_found decode o parts (from_any_body body)
  unfolding call_found convert_body
  found_converted none parts body = refl
  found_converted (some (service, extras)) parts body = refl

  -- A finished router answers every request as the router itself answers it with the body
  -- converted, if the new table of routes holds under each number the old one's route, wrapped.
  pub respond-finish :
      (r : Routing matchit table) (parts : Parts X) (body : C)
      → respond decode matchit converted
          (finish decode matchit table converted map_routes from_any_body r)
          (parts, body)
        ≡ respond decode matchit table r (parts, from_any_body body)
  unfolding respond respond_opt finish
  respond-finish r parts body =
      let both =
        ap (λ o. call_found decode o parts body)
          (call_opt-route_layer matchit table converted map_routes mapped
            (convert_body from_any_body) parts.method parts.path r)
        ∙ found_converted (call_opt matchit table parts.method parts.path r) parts body in
      ap (map_outcome or_not_found) both
