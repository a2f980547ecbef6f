-- ===== src/RateLimit/Extension.antt =====
-- layers/rate_limit/mod.rs: `extensions::RateLimiter`, the handle on the limiter that the service leaves
-- in the request, as the entry that it names. The layer that it holds is an argument, and the limiter
-- is the state; the operations with `_sync` in their name do the same.
use ftl.Prelude.{
  ℕ, ◌≡◌, ◌≢◌, ◌⊎◌, Bool, true, false, Option, none, some, Result, ok, err, if◌then◌else◌, ap,
  arith, refl, Option-cases, inl, inr, ◌>>=◌,
}
use ftl.Http.{Text, Method}
use ftl.Table.{Table}
use ftl.Gcra.{Quota}
use ftl.Limiter as Limits
use ftl.Limiter.{RateLimiter, Limiter, Verdict}
use ftl.Limiter.Requests.{req-eq-none_iff, req_fresh, req_peek_key-req}
use ftl.RateLimit.{
  Route, fallback, RouteWithKey, Entry, Layer, as_entry, select, deref, ext_req_quota,
}
use ftl.RateLimit.Service.{Parts, Outcome, inner, call, key_of, now_of, admit, call-inner}
use ftl.RateLimit.Service as Service
pub mod Resets

module _ {T : Type 0} where
  unfoldable pub key : RouteWithKey T → T
  key k = k.key

  unfoldable pub path : RouteWithKey T → Text
  unfolding deref
  path k = deref k.path

  unfoldable pub method : RouteWithKey T → Option Method
  method k = k.method

  -- `RateLimitLayer::global_fallback`: the handle on a user's entry for no route.
  unfoldable pub global_fallback : T → Option Method → RouteWithKey T
  global_fallback u m = record { path = fallback; method = m; key = u }

module _ {T : Type 0} (quotas : Table Route Quota) (table : Table (Entry T) ℕ) where
  unfoldable pub penalize : RouteWithKey T → ℕ → Limiter table → Limiter table × Bool
  unfolding as_entry Limits.penalize
  penalize k penalty s = Limits.penalize table (as_entry k) penalty s

  unfoldable pub reset : RouteWithKey T → Limiter table → Limiter table × Bool
  unfolding as_entry Limits.reset
  reset k s = Limits.reset table (as_entry k) s

  unfoldable pub clean : ℕ → Limiter table → Limiter table
  unfolding Limits.clean
  clean before s = Limits.clean table before s

  unfoldable pub req :
      Layer quotas → RouteWithKey T → ℕ → Limiter table → Option (Limiter table × Verdict table)
  unfolding as_entry Limits.req ext_req_quota
  req b k now s = Limits.req table (as_entry k) (ext_req_quota quotas b k) now s
