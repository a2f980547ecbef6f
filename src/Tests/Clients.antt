-- ===== src/Tests/Clients.antt =====
-- Runs of extract/real_ip.rs, of layers/rate_limit/mod.rs and of serve/accept/limited.rs.
use ftl.Prelude.{
  ℕ, ◌+◌, ◌*◌, ◌≤◌, ◌≡◌, refl, max, Option, none, some, true, List, [], ◌∷◌, ◌++◌, Result, ok,
  if◌then◌else◌, Bool-cases, inl, inr, arith,
}
use native.Mathlib.Decide.{ℕ_discrete}
use ftl.Http.{Text, Method, get}
use ftl.Strings.{codes, text_eq, split, trim, is_whitespace}
use ftl.Strings.Pieces.{text_eq_iff}
use ftl.Table.{Table, function_table}
use ftl.Gcra.{Quota, first}
use ftl.Limiter.{Limiter, req, req_peek_key}
use ftl.Limiter as Limits
use ftl.RateLimit.{
  FallbackBehavior, path, method, both, no_fallback, Route, MatchedPath, fallback, matched,
  RouteWithKey, Entry, Builder, Layer, select, as_entry, as_route, fall_back, add_route, add_routes,
  ext_req_quota,
}
use ftl.RateLimit as Config
use ftl.RateLimit.Service.{call, key_of, now_of, inner, call-inner}
use ftl.RateLimit.Service as Service
use ftl.Limiter.Rate.{Timed}
use ftl.RateLimit.Admission.{requests_of, passed, passed-rate}
use ftl.Gcra as Gcra
use ftl.RateLimit.Building.{with_extension}
use ftl.RateLimit.Extension as Extension
use ftl.RateLimit.Extension.Resets.{reset-call}
use ftl.RealIp.{IpAddr, v4, v6, Parts, parse_ip, scan, get_ip_from_headers, extension_or_scan}
use ftl.RealIp.Headers.{WritesColon, get_ip_v6}
use ftl.Acceptor.{enter, add, sub, run, start}
use ftl.Acceptor.Limit.{live-le-limit}
use ftl.Acceptor.Leak.{race, race_locks_out}

ran : Unit {0}
unfolding ℕ_discrete parse_ip scan get_ip_from_headers extension_or_scan text_eq split trim
    is_whitespace select as_entry as_route fall_back call Service.admit req_peek_key first req
    Limits.new Config.new with_extension Extension.reset Limits.reset Service.set_extension
    Service.set
ran = tt

-- A parser that knows two addresses, the second one written with colons.
abbrev parse_two : Text → Option IpAddr
unfolding ran
parse_two s =
    if text_eq s (codes "10.0.0.1")
    then some (v4 167772161)
    else if text_eq s (codes "::1")
    then some (v6 1)
    else none

abbrev forwarded : Parts Text
unfolding ran
forwarded = record {
  headers = λ n. if text_eq n (codes "x-real-ip") then some (codes "10.0.0.1, 10.0.0.2") else none;
  socket = some (v6 1);
  real_ip = none;
}

live-le-limit_example :
    let w = run 1 start race in (w.live 0 ≤ max 1 1) × (w.live 0 + w.rejecting 0 ≤ w.count 0)
live-le-limit_example = live-le-limit 1 0 race

race_locks_out_example :
    let w = run 1 start (race ++ enter ∷ add 0 ∷ sub 0 ∷ []) in
    (w.entry ≡ some 0) × (w.live 0 ≡ 0) × (1 ≤ w.count 0)
race_locks_out_example = race_locks_out (enter ∷ add 0 ∷ sub 0 ∷ [])

two_writes_colon : WritesColon some parse_two
unfolding ran
two_writes_colon s b h avoids = elim (Bool-cases (text_eq s (codes "10.0.0.1"))) [
  | inl first ↦ absurd (ground arith)
  | inr other ↦ elim (Bool-cases (text_eq s (codes "::1"))) [
    | inr none_of_them ↦ absurd (ground arith)
    | inl second ↦
        let same : s ≡ codes "::1" = (text_eq_iff s (codes "::1")).0 second in
        let bad = rw same at avoids in cc
  ]
]

abbrev socket_only : Parts Text
socket_only = record { headers = λ n. some (codes "::1"); socket = some (v6 1); real_ip = none }

get_ip_v6_example : some (v6 1) ≡ some (v6 1)
unfolding ran
get_ip_v6_example = get_ip_v6 some parse_two socket_only 1 two_writes_colon refl

Route-discrete : Discrete Route
Route-discrete = hlevel ℕ_discrete

Entry-discrete : Discrete (Entry ℕ)
Entry-discrete = hlevel ℕ_discrete

abbrev quotas : Table Route Quota
quotas = function_table Route-discrete

abbrev cells : Table (Entry ℕ) ℕ
cells = function_table Entry-discrete

abbrev two : Quota
two = record { tau = 20; t = 10 }

-- The path without a method has a quota.
abbrev by_path : Layer quotas
unfolding ran
by_path =
    record (add_route quotas (record { method = none; path = codes "/a" }) two
      (Config.new quotas)) { global_fallback = path }

abbrev asked : Method → Text → RouteWithKey ℕ
asked m p = record { path = matched p; method = some m; key = 7 }

-- A service that counts every request under the key 7.
abbrev request : Service.Parts ℕ
request = record {
  start_time = some 100;
  matched_path = some (codes "/a");
  method = get;
  limiter = none;
  callback = none;
}

abbrev seven : Service.Parts ℕ → Result ℕ (Unit {0})
seven _ = ok 7

abbrev limits : Limiter cells
unfolding ran
limits = Limits.new cells 8192 0

abbrev limits_after : Limiter cells
unfolding ran
limits_after = record limits {
  last_gc = 2;
  limits = cells.insert (as_entry (asked get (codes "/a"))) 2_000_100 limits.limits;
}

call-inner_test :
    let k = select quotas (Config.new quotas) (key_of quotas cells seven request 7) in
    (req cells (as_entry k.0) k.1 (now_of 900 (some 100)) limits ≡ some (limits_after, ok tt))
    × (none ≡ (if (Config.new quotas).extend then some k.0 else none))
unfolding ran
call-inner_test =
    call-inner quotas cells seven (Config.new quotas) 900 request request 7 limits limits_after refl
      refl

-- A layer that extends requests; the handler resets its user's entry.
abbrev extending : Layer quotas
unfolding ran
extending = with_extension quotas true (Config.new quotas)

abbrev extended : Service.Parts ℕ
extended = record request { limiter = some (asked get (codes "/a")) }

reset-call_example :
    (k : RouteWithKey ℕ) × (extended.limiter ≡ some k)
    × (t : Limiter cells) × (n : Service.Parts ℕ) × (call quotas cells seven extending 200 request
          (Extension.reset quotas cells k limits_after).0
        ≡ some (t, inner n))
unfolding ran
reset-call_example =
    reset-call quotas cells seven extending 900 200 request extended request 7 limits limits_after
      limits_after refl refl refl refl refl (inl refl) (λ e. omega arith) refl

-- Two requests of one user, the second too early.
abbrev calls : List (ℕ × Service.Parts ℕ)
calls = (900, request) ∷ (900, record request { start_time = some 200 }) ∷ []

abbrev asked_entry : Entry ℕ
unfolding ran
asked_entry = as_entry (asked get (codes "/a"))

calls-Timed :
    Timed asked_entry
      (Config.new quotas).default_quota
      0
      100
      200
      (requests_of quotas cells seven (Config.new quotas) calls)
unfolding ran
calls-Timed = (omega arith, λ e. refl, (omega arith, λ e. refl, omega arith))

passed_test :
    passed quotas cells seven Entry-discrete (Config.new quotas) asked_entry calls limits ≡ some 1
unfolding ran Entry-discrete Gcra.req Gcra.decide
passed_test = refl

passed-rate_example :
    (n : ℕ) × (passed quotas cells seven Entry-discrete (Config.new quotas) asked_entry calls limits
      ≡ some n)
    × (100 + n * 1_000_000 ≤ 200 + 1_000_000 + 1_000_000)
unfolding ran Gcra.new
passed-rate_example =
    passed-rate quotas cells seven Entry-discrete (Config.new quotas) asked_entry
      (Config.new quotas).default_quota 100 200 calls limits (λ e. omega arith) (omega arith)
      (inl refl, (inl refl, tt)) calls-Timed
