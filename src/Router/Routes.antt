-- ===== src/Router/Routes.antt =====
-- router.rs: the matchers' numbers and the table of routes, from one set-up call to the next.
use ftl.Prelude.{
  ℕ, ◌+◌, ◌≤◌, ◌<◌, ◌≡◌, ◌⊎◌, inl, inr, true, some, List, [], ◌∷◌, is_some, Option-cases, arith,
}
use mathlib.Core.Logic.{if_pos, if_neg}
use ftl.Http.{Text, Method}
use ftl.Table.{Table}
use ftl.Router.{
  Matchit, Slot, r_any, Slot-discrete, slot, Route, set_slot, Routing, new, set_trim, add_methods,
  on, any, fallback, Setup, on_setup, any_setup, fallback_setup, trim_setup, apply, build,
}

module _ {P S : Type 0} (matchit : Matchit P) (table : Table ℕ (Route S)) where
  -- Numbers are given out from 1, and each one that a matcher holds has a route.
  pub record IsRouted (r : Routing matchit table) : Type 0 where
    pub positive : 1 ≤ r.counter
    pub stored :
        (s : Slot) (j : ℕ)
        → matchit.Stored (r.trees s) j
        → (1 ≤ j) × (j < r.counter) × (is_some (table.get j r.routes) ≡ true)

  pub new-IsRouted : IsRouted (new matchit table)
  unfolding new
  new-IsRouted = record {
    positive = omega arith;
    stored = λ s j h. absurd (matchit.stored-empty j h);
  }

  set_slot-stored :
      (trees : Slot → matchit.Tree) (s0 s : Slot) (t : matchit.Tree) (p : Text) (i j : ℕ)
      → matchit.insert p i (trees s0) ≡ some t
      → matchit.Stored (set_slot s0 t trees s) j
      → (j ≡ i) ⊎ matchit.Stored (trees s) j
  set_slot-stored trees s0 s t p i j e h = elim (Slot-discrete s0 s) [
    | yes same ↦
        let h' = rw (if_pos (Slot-discrete s0 s) same t (trees s)) at h in
        rw (← same) (matchit.stored-insert p i j (trees s0) t e h')
    | no other ↦ inr (rw (if_neg (Slot-discrete s0 s) other t (trees s)) at h)
  ]

  add_methods-stored :
      (path : Text) (id : ℕ) (ms : List Method) (trees out : Slot → matchit.Tree) (s : Slot) (j : ℕ)
      → add_methods matchit table path id ms trees ≡ some out
      → matchit.Stored (out s) j
      → (j ≡ id) ⊎ matchit.Stored (trees s) j
  unfolding add_methods
  add_methods-stored path id [] trees out s j e h =
      let same : trees ≡ out = cc in inr (rw (← same) at h)
  add_methods-stored path id (m ∷ ms) trees out s j e h =
      elim (Option-cases (matchit.insert path id (trees (slot m)))) [
        | inl full ↦ absurd (ground arith)
        | inr (t, added) ↦
            elim (add_methods-stored path id ms (set_slot (slot m) t trees) out s j
              (rw (added, add_methods) at e) h) [
                | inl new_one ↦ inl new_one
                | inr old ↦ set_slot-stored trees (slot m) s t path id j added old
              ]
      ]

  -- A route under the next number keeps the invariant.
  extend-IsRouted :
      (r : Routing matchit table) (trees : Slot → matchit.Tree) (route : Route S)
      → IsRouted r
      → ((s : Slot) (j : ℕ)
          → matchit.Stored (trees s) j
          → (j ≡ r.counter) ⊎ matchit.Stored (r.trees s) j)
      → IsRouted (record r {
        trees = trees;
        counter = r.counter + 1;
        routes = table.insert r.counter route r.routes;
      })
  extend-IsRouted r trees route v step = record {
    positive = omega arith;
    stored = λ s j h. elim (step s j h) [
      | inl now ↦ (
        omega (arith, v.positive),
        omega arith,
        rw now (rw (table.get-insert_self r.counter route r.routes)),
      )
      | inr before ↦
          let (low, high, there) = v.stored s j before in
          (
            low,
            omega arith,
            rw (table.get-insert_ne r.counter j route r.routes (λ e. omega arith)) there,
          )
    ];
  }

  on-IsRouted :
      (ms : List Method) (path : Text) (service : S) (r s : Routing matchit table)
      → IsRouted r
      → on matchit table ms path service r ≡ some s
      → IsRouted s
  unfolding on
  on-IsRouted ms path service r s v e =
      elim (Option-cases (add_methods matchit table path r.counter ms r.trees)) [
        | inl full ↦ absurd (ground arith)
        | inr (trees, added) ↦
            let route : Route S = record { path = path; service = service } in
            let same : record r {
              trees = trees;
              counter = r.counter + 1;
              routes = table.insert r.counter route r.routes;
            }
                ≡ s =
              ground arith in
            rw (← same) (
              extend-IsRouted r trees route v
                (λ sl j h. add_methods-stored path r.counter ms r.trees trees sl j added h))
      ]

  any-IsRouted :
      (path : Text) (service : S) (r s : Routing matchit table)
      → IsRouted r
      → any matchit table path service r ≡ some s
      → IsRouted s
  unfolding any
  any-IsRouted path service r s v e =
      elim (Option-cases (matchit.insert path r.counter (r.trees r_any))) [
        | inl full ↦ absurd (ground arith)
        | inr (t, added) ↦
            let route : Route S = record { path = path; service = service } in
            let same : record r {
              trees = set_slot r_any t r.trees;
              counter = r.counter + 1;
              routes = table.insert r.counter route r.routes;
            }
                ≡ s =
              ground arith in
            rw (← same) (
              extend-IsRouted r (set_slot r_any t r.trees) route v
                (λ sl j h. set_slot-stored r.trees r_any sl t path r.counter j added h))
      ]

  fallback-IsRouted :
      (service : S) (r : Routing matchit table)
      → IsRouted r
      → IsRouted (fallback matchit table service r)
  unfolding fallback
  fallback-IsRouted service r v =
      let route : Route S = record { path = []; service = service } in
      record {
        positive = v.positive;
        stored = λ s j h.
            let (low, high, there) = v.stored s j h in
            (low, high, rw (table.get-insert_ne 0 j route r.routes (λ e. omega arith)) there);
      }

  apply-IsRouted :
      (c : Setup S) (r s : Routing matchit table)
      → IsRouted r
      → apply matchit table c r ≡ some s
      → IsRouted s
  unfolding apply set_trim
  apply-IsRouted (on_setup ms path service) r s v e = on-IsRouted ms path service r s v e
  apply-IsRouted (any_setup path service) r s v e = any-IsRouted path service r s v e
  apply-IsRouted (fallback_setup service) r s v e =
      let same : fallback matchit table service r ≡ s = cc in
      rw (← same) (fallback-IsRouted service r v)
  apply-IsRouted (trim_setup b) r s v e =
      let same : record r { trim_trailing_slash = b } ≡ s = cc in
      rw (← same) (record { positive = v.positive; stored = v.stored })

  -- Every set-up that does not panic keeps the invariant.
  pub build-IsRouted :
      (cs : List (Setup S)) (r s : Routing matchit table)
      → IsRouted r
      → build matchit table cs r ≡ some s
      → IsRouted s
  unfolding build
  build-IsRouted [] r s v e = let same : r ≡ s = cc in rw (← same) v
  build-IsRouted (c ∷ cs) r s v e = elim (Option-cases (apply matchit table c r)) [
    | inl stop ↦ absurd (ground arith)
    | inr (t, go) ↦ build-IsRouted cs t s (apply-IsRouted c r t v go) (rw (go, build) at e)
  ]
