-- ===== src/RateLimit/Quotas.antt =====
-- layers/rate_limit/mod.rs: the quota of a request, and the entry that it is counted under.
use ftl.Prelude.{ap, ◌≡◌, ◌≢◌, ◌⊎◌, ◌↔◌, none, some, [], arith, refl}
use ftl.Http.{Text, Method}
use ftl.Table.{Table}
use ftl.Gcra.{Quota}
use ftl.RateLimit.{
  FallbackBehavior, path, method, both, no_fallback, Route, matched, RouteWithKey, Entry, as_route,
  as_entry, fall_back, deref, Layer, select, ext_quota, ext_req_quota, add_route,
}

module _ {T : Type 0} where
  -- What two requests of one user with no quota of their own share, if they are counted together.
  abbrev pub Shares : FallbackBehavior → RouteWithKey T → RouteWithKey T → Type 0
  Shares path j k = deref j.path ≡ deref k.path
  Shares method j k = j.method ≡ k.method
  Shares both j k = Unit
  Shares no_fallback j k = (deref j.path ≡ deref k.path) × (j.method ≡ k.method)

  fall_back-Shares :
      (f : FallbackBehavior) (j k : RouteWithKey T)
      → j.key ≡ k.key
      → (as_entry (fall_back f j) ≡ as_entry (fall_back f k)) ↔ Shares f j k
  unfolding as_entry fall_back
  fall_back-Shares path j k h =
      (λ e. ap (λ (r : Entry T). r.path) e, λ e i. record { path = e i; method = none; key = h i })
  fall_back-Shares method j k h =
      (λ e. ap (λ (r : Entry T). r.method) e, λ e i. record { path = []; method = e i; key = h i })
  fall_back-Shares both j k h = (λ _. tt, λ _ i. record { path = []; method = none; key = h i })
  fall_back-Shares no_fallback j k h = (
    λ e. (ap (λ (r : Entry T). r.path) e, ap (λ (r : Entry T). r.method) e),
    λ e i. record { path = e.0 i; method = e.1 i; key = h i },
  )

module _ (quotas : Table Route Quota) {T : Type 0} where
  -- Two requests of one user, neither with a quota for its route, are counted under one entry
  -- exactly when they agree in what the fallback says: the path, the method, nothing, or both path
  -- and method; both go by the default quota.
  pub select-Shares :
      (b : Layer quotas) (j k : RouteWithKey T)
      → quotas.get (as_route j) b.quotas ≡ none
      → quotas.get (as_route k) b.quotas ≡ none
      → j.key ≡ k.key
      → ((as_entry (select quotas b j).0 ≡ as_entry (select quotas b k).0)
          ↔ Shares b.global_fallback j k)
        × ((select quotas b j).1 ≡ b.default_quota)
        × ((select quotas b k).1 ≡ b.default_quota)
  unfolding select
  select-Shares b j k hj hk h = rw (hj, hk) (fall_back-Shares b.global_fallback j k h, refl, refl)

  has_method :
      (k : RouteWithKey T) (m : Method) (p : Text)
      → k.method ≡ some m
      → ◌≢◌ {A = Route} (record { method = none; path = p }) (as_route k)
  unfolding as_route
  has_method k m p h e = cc

  -- A quota added to a route without a method changes neither the entry nor the quota of any
  -- request that has a method.
  pub select-add_route :
      (b : Layer quotas) (k : RouteWithKey T) (m : Method) (p : Text) (q : Quota)
      → k.method ≡ some m
      → select quotas (add_route quotas (record { method = none; path = p }) q b) k
        ≡ select quotas b k
  unfolding select add_route
  select-add_route b k m p q h = rw (
      quotas.get-insert_ne (record { method = none; path = p }) (as_route k) q b.quotas
        (has_method k m p h))

  -- The extension of an admitted request goes by the quota that the request went by, if the
  -- fallback is not by path, or no quota was given to the path without a method.
  pub ext_req_quota-select :
      (b : Layer quotas) (k : RouteWithKey T) (p : Text)
      → k.path ≡ matched p
      → (b.global_fallback ≢ path)
        ⊎ (quotas.get (record { method = none; path = p }) b.quotas ≡ none)
      → ext_req_quota quotas b (select quotas b k).0 ≡ (select quotas b k).1
  unfolding ext_req_quota select
  ext_req_quota-select b k p h ok = ground arith

  -- Under the fallback by path, for a matched path with no quota for the request's method but with
  -- one for the path without a method, a request through the extension goes by the latter quota,
  -- while the request itself went by the default quota.
  pub ext_req_quota_by_path :
      (b : Layer quotas) (k : RouteWithKey T) (p : Text) (q : Quota)
      → k.path ≡ matched p
      → b.global_fallback ≡ path
      → quotas.get (as_route k) b.quotas ≡ none
      → quotas.get (record { method = none; path = p }) b.quotas ≡ some q
      → (ext_req_quota quotas b (select quotas b k).0 ≡ q)
        × ((select quotas b k).1 ≡ b.default_quota)
  unfolding ext_req_quota select
  ext_req_quota_by_path b k p q h f miss found = ground arith

  -- With no fallback, `quota()` on the extension of a request with no quota of its own panics.
  pub ext_quota_missing :
      (b : Layer quotas) (k : RouteWithKey T)
      → b.global_fallback ≡ no_fallback
      → quotas.get (as_route k) b.quotas ≡ none
      → ext_quota quotas b (select quotas b k).0 ≡ none
  unfolding ext_quota select
  ext_quota_missing b k f miss = ground arith
