-- ===== src/RateLimit/Service.antt =====
-- layers/rate_limit/mod.rs: `RateLimitService::call`. The user's key (see UserKey) is an argument.
use ftl.Prelude.{
  ℕ, ◌≡◌, Option, none, some, Result, ok, err, ◌>>=◌, if◌then◌else◌, arith, Option-cases, inl, inr,
}
use ftl.Http.{Text, Method}
use ftl.Table.{Table}
use ftl.Gcra.{Quota}
use ftl.Limiter.{Limiter, req, req_peek_key}
use ftl.Limiter.Requests.{req_peek_key-req}
use ftl.RateLimit.{
  Route, MatchedPath, fallback, matched, RouteWithKey, Entry, Layer, as_entry, select,
}

-- The parts of the request that the service reads and writes. `callback` is the
-- `RateLimiterCallback` extension, if there is one, with what it was set to.
pub record Parts (T : Type 0) : Type 0 where
  pub start_time : Option ℕ
  pub matched_path : Option Text
  pub method : Method
  pub limiter : Option (RouteWithKey T)
  pub callback : Option (Option (RouteWithKey T))

-- The service's answer: its two errors, or the inner service called on these parts.
pub data Outcome (T R : Type 0) : Type 0 where
  key_rejection : R → Outcome T R
  rate_limit : ℕ → Outcome T R
  inner : Parts T → Outcome T R

abbrev pub path_of : Option Text → MatchedPath
path_of none = fallback
path_of (some p) = matched p

abbrev pub now_of : ℕ → Option ℕ → ℕ
now_of clock none = clock
now_of clock (some start) = start

module _ {T : Type 0} where
  -- `RateLimiterCallback::set`, which panics if it was set before.
  unfoldable pub set : RouteWithKey T → Option (RouteWithKey T) → Option (Option (RouteWithKey T))
  set k none = some (some k)
  set k (some _) = none

  unfoldable pub set_extension : RouteWithKey T → Parts T → Option (Parts T)
  unfolding set
  set_extension k parts = elim parts.callback [
    | none ↦ some (record parts { limiter = some k })
    | some held ↦ do
      held' ← set k held
      some (record parts { limiter = some k; callback = some held' })
  ]

module _ {T R : Type 0} (quotas : Table Route Quota) (table : Table (Entry T) ℕ)
    (user_key : Parts T → Result T R) where
  abbrev pub finish :
      Layer quotas
      → RouteWithKey T
      → Parts T
      → Limiter table × Result (Unit {0}) ℕ × Option (Entry T)
      → Option (Limiter table × Outcome T R)
  finish b k parts (s, err e, _) = some (s, rate_limit e)
  finish b k parts (s, ok _, _) =
      if b.extend then (do p ← set_extension k parts; some (s, inner p)) else some (s, inner parts)

  -- A request with its key: `RateLimitLayer::req_peek_key` with the closure that extends the parts.
  unfoldable pub admit :
      Layer quotas
      → RouteWithKey T
      → ℕ
      → Parts T
      → Limiter table
      → Option (Limiter table × Outcome T R)
  admit b k now parts s = do
    r ← req_peek_key table (as_entry (select quotas b k).0) (select quotas b k).1 now s
    finish b (select quotas b k).0 parts r

  unfoldable pub call :
      Layer quotas → ℕ → Parts T → Limiter table → Option (Limiter table × Outcome T R)
  call b clock parts s = elim (user_key parts) [
    | err r ↦ some (s, key_rejection r)
    | ok key ↦
        admit b
          (record { path = path_of parts.matched_path; method = some parts.method; key = key })
          (now_of clock parts.start_time) parts s
  ]

  -- The key of a request, and what it is counted under.
  abbrev pub key_of : Parts T → T → RouteWithKey T
  key_of parts key = record {
    path = path_of parts.matched_path;
    method = some parts.method;
    key = key;
  }

  -- What the closure is told, taken back to `req`.
  req_of_peek :
      (e : Entry T) (q : Quota) (now : ℕ) (s s' : Limiter table) (v : Result (Unit {0}) ℕ)
      (o : Option (Entry T))
      → req_peek_key table e q now s ≡ some (s', v, o)
      → req table e q now s ≡ some (s', v)
  req_of_peek e q now s s' v o h = elim (Option-cases (req table e q now s)) [
    | inl stop ↦ absurd (ground (arith, req_peek_key-req table e q now s))
    | inr (r, go) ↦ ground (arith, req_peek_key-req table e q now s)
  ]

  admit-inner :
      (b : Layer quotas) (k : RouteWithKey T) (now : ℕ) (parts p : Parts T) (s s' : Limiter table)
      → admit b k now parts s ≡ some (s', inner p)
      → (req table (as_entry (select quotas b k).0) (select quotas b k).1 now s ≡ some (s', ok tt))
        × (p.limiter ≡ (if b.extend then some (select quotas b k).0 else parts.limiter))
  unfolding admit set_extension
  admit-inner b k now parts p s s' e =
      elim (Option-cases
        (req_peek_key table (as_entry (select quotas b k).0) (select quotas b k).1 now s)) [
          | inl stop ↦ absurd (ground arith)
          | inr ((s1, err w, o), go) ↦ absurd (ground arith)
          | inr ((s1, ok u, o), go) ↦
              let back =
                req_of_peek (as_entry (select quotas b k).0) (select quotas b k).1 now s s1 (ok u) o
                  go in
              (ground arith, ground arith)
        ]

  admit-rate_limit :
      (b : Layer quotas) (k : RouteWithKey T) (now w : ℕ) (parts : Parts T) (s s' : Limiter table)
      → admit b k now parts s ≡ some (s', rate_limit w)
      → req table (as_entry (select quotas b k).0) (select quotas b k).1 now s ≡ some (s', err w)
  unfolding admit set_extension
  admit-rate_limit b k now w parts s s' e =
      elim (Option-cases
        (req_peek_key table (as_entry (select quotas b k).0) (select quotas b k).1 now s)) [
          | inl stop ↦ absurd (ground arith)
          | inr ((s1, err x, o), go) ↦
              let back =
                req_of_peek (as_entry (select quotas b k).0) (select quotas b k).1 now s s1 (err x)
                  o go in
              ground arith
          | inr ((s1, ok u, o), go) ↦ absurd (ground arith)
        ]

  -- When a request has a user key and the service passes it to the inner service, `req` admitted it
  -- under the entry and the quota that `select` gives for its matched path, method and key, at its
  -- recorded start time or else at the clock's; the limiter extension of the parts passed on is the
  -- entry's if the layer extends requests, and is untouched if not.
  pub call-inner :
      (b : Layer quotas) (clock : ℕ) (parts p : Parts T) (key : T) (s s' : Limiter table)
      → user_key parts ≡ ok key
      → call b clock parts s ≡ some (s', inner p)
      → let k = select quotas b (key_of parts key) in
        (req table (as_entry k.0) k.1 (now_of clock parts.start_time) s ≡ some (s', ok tt))
        × (p.limiter ≡ (if b.extend then some k.0 else parts.limiter))
  unfolding call
  call-inner b clock parts p key s s' h e =
      admit-inner b (key_of parts key) (now_of clock parts.start_time) parts p s s'
        (rw (h, call) at e)

  -- The error that the service answers with is the limiter's refusal of that same request.
  pub call-rate_limit :
      (b : Layer quotas) (clock w : ℕ) (parts : Parts T) (key : T) (s s' : Limiter table)
      → user_key parts ≡ ok key
      → call b clock parts s ≡ some (s', rate_limit w)
      → let k = select quotas b (key_of parts key) in
        req table (as_entry k.0) k.1 (now_of clock parts.start_time) s ≡ some (s', err w)
  unfolding call
  call-rate_limit b clock w parts key s s' h e =
      admit-rate_limit b (key_of parts key) (now_of clock parts.start_time) w parts s s'
        (rw (h, call) at e)
