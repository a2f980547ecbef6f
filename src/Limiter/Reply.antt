-- ===== src/Limiter/Reply.antt =====
-- layers/rate_limit/gcra.rs: the reply to a refused request.
use ftl.Prelude.{ℕ, ◌+◌, ◌*◌, ◌%◌, ◌≤◌, ◌<◌, ◌≡◌, ◌≢◌, max, err, arith}
use ftl.Gcra.{Quota, decide}
use ftl.Limiter.{into_response, nanos_per_sec}

-- Every header gives the same whole number of seconds, at least one; it is rounded down, so it is
-- never a second more than the wait, unless the wait is shorter than a second.
pub into_response_bounds :
    (e : ℕ)
    → let r = into_response e in
      (1 ≤ r.retry_after)
      × (r.ratelimit_reset ≡ r.retry_after)
      × (r.x_ratelimit_reset ≡ r.retry_after)
      × (r.retry_after * nanos_per_sec ≤ max e nanos_per_sec)
      × (e < (r.retry_after + 1) * nanos_per_sec)
unfolding into_response
into_response_bounds e = omega arith

-- A client that comes back after exactly `retry-after` seconds is refused again, whenever the wait
-- is over a second and no whole number of seconds.
pub retry_after_early :
    (prev now e : ℕ) (q : Quota)
    → decide prev now q ≡ err e
    → nanos_per_sec ≤ e
    → e % nanos_per_sec ≢ 0
    → decide prev (now + (into_response e).retry_after * nanos_per_sec) q ≡ err (e % nanos_per_sec)
unfolding decide into_response
retry_after_early prev now e q refused long part = ground arith
