-- ===== src/RateLimit.antt =====
-- layers/rate_limit/mod.rs: the configuration of the layer, the entry that a request is counted
-- under, and the service. A path is its text, a key's type is a parameter.
use ftl.Prelude.{ℕ, Bool, true, false, Option, none, some, List, [], ◌∷◌, Result, ok, err, ◌>>=◌}
use ftl.Prelude.Words.{u64_max}
use ftl.Http.{Text, Method}
use ftl.Table.{Table}
use ftl.Gcra.{Quota, simple}
use ftl.Limiter as Limiter
use ftl.Limiter.{RateLimiter, req_peek_key}
pub mod Quotas
pub mod UserKey
pub mod Collector
pub mod Service
pub mod Building
pub mod Extension
pub mod Admission

pub data GcInterval : Type 0 where
  requests : ℕ → GcInterval
  time : ℕ → GcInterval

pub data FallbackBehavior : Type 0 where
  path method both no_fallback : FallbackBehavior

-- `From<bool>`
unfoldable pub of_bool : Bool → FallbackBehavior
of_bool true = both
of_bool false = no_fallback

-- A timed interval turns the counter off.
unfoldable pub to_requests : GcInterval → ℕ
to_requests (requests n) = n
to_requests (time _) = u64_max

pub record Route : Type 0 where
  pub method : Option Method
  pub path : Text

pub data MatchedPath : Type 0 where
  fallback : MatchedPath
  matched : Text → MatchedPath

-- `Deref`; `PartialEq` and `Hash` go by it.
unfoldable pub deref : MatchedPath → Text
deref fallback = []
deref (matched p) = p

pub record RouteWithKey (T : Type 0) : Type 0 where
  pub path : MatchedPath
  pub method : Option Method
  pub key : T

unfoldable pub as_route : {T : Type 0} → RouteWithKey T → Route
unfolding deref
as_route k = record { method = k.method; path = deref k.path }

-- What two equal entries share: the entry as the table of cells sees it.
pub record Entry (T : Type 0) : Type 0 where
  pub path : Text
  pub method : Option Method
  pub key : T

unfoldable pub as_entry : {T : Type 0} → RouteWithKey T → Entry T
unfolding deref
as_entry k = record { path = deref k.path; method = k.method; key = k.key }

pub record Builder (Q : Type 0) : Type 0 where
  pub quotas : Q
  pub default_quota : Quota
  pub global_fallback : FallbackBehavior
  pub gc_interval : GcInterval
  -- `set_ext` is set
  pub extend : Bool

-- The entry under which a request with no quota of its own is counted.
unfoldable pub fall_back : {T : Type 0} → FallbackBehavior → RouteWithKey T → RouteWithKey T
fall_back path k = record k { method = none }
fall_back method k = record k { path = fallback }
fall_back both k = record k { path = fallback; method = none }
fall_back no_fallback k = k

module _ (quotas : Table Route Quota) where
  abbrev pub Layer : Type 0
  Layer = Builder quotas.Map

  -- `RateLimitLayerBuilder::new`: a request each millisecond, and a collection in 8192 requests.
  unfoldable pub new : Layer
  unfolding simple
  new = record {
    quotas = quotas.empty;
    default_quota = simple 1_000_000;
    global_fallback = no_fallback;
    gc_interval = requests 8192;
    extend = false;
  }

  unfoldable pub add_routes : List (Route × Quota) → Layer → Layer
  add_routes [] b = b
  add_routes ((r, q) ∷ rs) b = add_routes rs (record b { quotas = quotas.insert r q b.quotas })

  unfoldable pub add_route : Route → Quota → Layer → Layer
  unfolding add_routes
  add_route r q b = add_routes ((r, q) ∷ []) b

  -- `RateLimitLayer::req_peek_key`, before the limiter is asked.
  abbrev choose : {T : Type 0} → Layer → RouteWithKey T → Option Quota → RouteWithKey T × Quota
  choose b k (some q) = (k, q)
  choose b k none = (fall_back b.global_fallback k, b.default_quota)

  unfoldable pub select : {T : Type 0} → Layer → RouteWithKey T → RouteWithKey T × Quota
  unfolding fall_back as_route
  select b k = choose b k (quotas.get (as_route k) b.quotas)

  -- `extensions::RateLimiter::quota`, which panics on a missing route, and the quota that
  -- `extensions::RateLimiter::req` goes by.
  unfoldable pub ext_quota : {T : Type 0} → Layer → RouteWithKey T → Option Quota
  unfolding as_route
  ext_quota b k = quotas.get (as_route k) b.quotas

  abbrev or_default : Quota → Option Quota → Quota
  or_default d none = d
  or_default d (some q) = q

  abbrev by_path : {T : Type 0} → Layer → RouteWithKey T → MatchedPath → Quota
  by_path b k fallback = b.default_quota
  by_path b k (matched _) = or_default b.default_quota (quotas.get (as_route k) b.quotas)

  unfoldable pub ext_req_quota : {T : Type 0} → Layer → RouteWithKey T → Quota
  unfolding as_route
  ext_req_quota b k = by_path b k k.path
