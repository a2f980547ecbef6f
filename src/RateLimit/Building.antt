-- ===== src/RateLimit/Building.antt =====
-- layers/rate_limit/mod.rs: the setters of `RateLimitLayerBuilder`, and `build`. The task that `build`
-- spawns is in Collector; here it is the interval that it was given.
use ftl.Prelude.{ℕ, ◌≡◌, ◌↔◌, Option, none, some, List, Bool, false, arith}
use ftl.Table.{Table}
use ftl.Gcra.{Quota}
use ftl.Limiter as Limits
use ftl.Limiter.{RateLimiter, Limiter, req, should_gc}
use ftl.Limiter.Requests.{req-eq-none_iff}
use ftl.RateLimit.{
  GcInterval, requests, time, FallbackBehavior, Route, Entry, Layer, add_route, add_routes,
  to_requests,
}

module _ (quotas : Table Route Quota) where
  unfoldable pub with_route : Route → Quota → Layer quotas → Layer quotas
  unfolding add_route
  with_route r q b = add_route quotas r q b

  unfoldable pub with_routes : List (Route × Quota) → Layer quotas → Layer quotas
  unfolding add_routes
  with_routes rs b = add_routes quotas rs b

  unfoldable pub with_default_quota : Quota → Layer quotas → Layer quotas
  with_default_quota q b = record b { default_quota = q }

  unfoldable pub with_global_fallback : FallbackBehavior → Layer quotas → Layer quotas
  with_global_fallback f b = record b { global_fallback = f }

  unfoldable pub with_gc_interval : GcInterval → Layer quotas → Layer quotas
  with_gc_interval g b = record b { gc_interval = g }

  unfoldable pub with_extension : Bool → Layer quotas → Layer quotas
  with_extension extend b = record b { extend = extend }

module _ {T : Type 0} (quotas : Table Route Quota) (table : Table (Entry T) ℕ) where
  -- The layer, with the interval of the task that it spawned, if it spawned one.
  pub record RateLimitLayer : Type 0 where
    pub builder : Layer quotas
    pub limiter : Limiter table
    pub collector : Option ℕ

  unfoldable spawned : GcInterval → Option ℕ
  spawned (requests n) = none
  spawned (time d) = some d

  unfoldable pub build : ℕ → Layer quotas → RateLimitLayer
  unfolding spawned Limits.new to_requests
  build now b = record {
    builder = b;
    limiter = Limits.new table (to_requests b.gc_interval) now;
    collector = spawned b.gc_interval;
  }

  to_requests_zero : (g : GcInterval) → (to_requests g ≡ 0) ↔ (g ≡ requests 0)
  unfolding to_requests
  to_requests_zero (requests n) = ground arith
  to_requests_zero (time d) = ground arith

  -- The first request to a layer that was built panics exactly when the builder's interval is zero
  -- requests.
  pub build-req-none_iff :
      (b : Layer quotas) (e : Entry T) (q : Quota) (now ts : ℕ)
      → (req table e q ts (build now b).limiter ≡ none) ↔ (b.gc_interval ≡ requests 0)
  unfolding build
  build-req-none_iff b e q now ts = ground (
    arith,
    req-eq-none_iff table e q ts (build now b).limiter,
    to_requests_zero b.gc_interval,
    table.get-empty e,
  )

  -- A layer that was built with a timed interval never collects on a request, and the counter stays.
  pub build-should_gc :
      (b : Layer quotas) (d now : ℕ)
      → b.gc_interval ≡ time d
      → should_gc (build now b).limiter ≡ some (false, (build now b).limiter)
  unfolding build should_gc to_requests
  build-should_gc b d now h = ground arith
