-- ===== src/RateLimit/Admission.antt =====
-- layers/rate_limit/mod.rs: the requests that the service passes on, as what the limiter admits.
use ftl.Prelude.{
  ℕ, ◌+◌, ◌*◌, ◌≤◌, ◌≡◌, ◌≢◌, refl, ap, ◌∙◌, true, false, Bool-cases, ◌⊎◌, inl, inr, Option, none,
  some, List, [], ◌∷◌, Result, ok, err, Result-cases, arith, ◌>>=◌,
}
use mathlib.Core.Option
use ftl.Prelude.Words.{u64_max}
use ftl.Table.{Table}
use ftl.Gcra.{Quota}
use ftl.Limiter as Limits
use ftl.Limiter.{RateLimiter, Limiter, Verdict, req_peek_key}
use ftl.Limiter.Requests.{told, req_peek_key-req}
use ftl.Limiter.Rate.{Event, ask, admitted, Timed, count}
use ftl.Limiter.Rate.Bound.{admitted-rate}
use ftl.RateLimit.{Route, RouteWithKey, Entry, Layer, as_entry, select}
use ftl.RateLimit.Service.{
  Parts, Outcome, key_rejection, rate_limit, inner, call, key_of, now_of, admit, finish,
  set_extension,
}
use ftl.RateLimit.Extension.Resets.{Free, call-admit, set_extension-Free}

module _ {T R : Type 0} (quotas : Table Route Quota) (table : Table (Entry T) ℕ)
    (user_key : Parts T → Result T R) where
  -- The service's answer to the limiter's.
  abbrev answer : Parts T → Verdict table → Outcome T R
  answer p (ok _) = inner p
  answer p (err w) = rate_limit w

  abbrev answers :
      Parts T → Option (Limiter table × Verdict table) → Option (Limiter table × Outcome T R)
  answers p r = Option.map (λ v. (v.0, answer p v.1)) r

  -- The parts that are passed on.
  abbrev IsPassed : Layer quotas → RouteWithKey T → Parts T → Parts T → Type 0
  IsPassed b k parts p =
      ((b.extend ≡ true) × (set_extension k parts ≡ some p)) ⊎ ((b.extend ≡ false) × (p ≡ parts))

  finish-answer :
      (b : Layer quotas) (k : RouteWithKey T) (e : Entry T) (parts p : Parts T)
      → IsPassed b k parts p
      → (r : Option (Limiter table × Verdict table))
      → (Option.map (λ v. (v.0, v.1, told table e v.1)) r
          >>= finish quotas table user_key b k parts)
        ≡ answers p r
  finish-answer b k e parts p h none = refl
  finish-answer b k e parts p h (some (s, err w)) = refl
  finish-answer b k e parts p (inl (on, extended)) (some (s, ok u)) = ground arith
  finish-answer b k e parts p (inr (off, same)) (some (s, ok u)) = ground arith

  Free-IsPassed :
      (b : Layer quotas) (k : RouteWithKey T) (parts : Parts T)
      → Free quotas table user_key parts
      → (p : Parts T) × IsPassed b k parts p
  Free-IsPassed b k parts free =
      let (p, extended) = set_extension-Free quotas table user_key k parts free in
      elim (Bool-cases b.extend) [
        | inl on ↦ (p, inl (on, extended))
        | inr off ↦ (parts, inr (off, refl))
      ]

  -- A request with a key, as the limiter's request.
  admit-req :
      (b : Layer quotas) (k : RouteWithKey T) (now : ℕ) (parts : Parts T) (s : Limiter table)
      → Free quotas table user_key parts
      → (p : Parts T) × (admit quotas table user_key b k now parts s
          ≡ answers p
              (Limits.req table (as_entry (select quotas b k).0) (select quotas b k).1 now s))
  unfolding admit
  admit-req b k now parts s free =
      let e = as_entry (select quotas b k).0 in
      let q = (select quotas b k).1 in
      let (p, h) = Free-IsPassed b (select quotas b k).0 parts free in
      (
        p,
        rw (req_peek_key-req table e q now s)
            (finish-answer b (select quotas b k).0 e parts p h (Limits.req table e q now s)),
      )

  call_rejected :
      (b : Layer quotas) (clock : ℕ) (parts : Parts T) (s : Limiter table) (r : R)
      → user_key parts ≡ err r
      → call quotas table user_key b clock parts s ≡ some (s, key_rejection r)
  unfolding call
  call_rejected b clock parts s r h = ground arith

  -- What the limiter is asked by the calls, each at its clock.
  abbrev asked :
      Layer quotas → Result T R → ℕ → Parts T → List (Event (Entry T)) → List (Event (Entry T))
  asked b (err r) clock parts es = es
  asked b (ok u) clock parts es =
      let k = select quotas b (key_of quotas table user_key parts u) in
      ask (as_entry k.0) k.1 (now_of clock parts.start_time) ∷ es

  abbrev pub requests_of : Layer quotas → List (ℕ × Parts T) → List (Event (Entry T))
  requests_of b [] = []
  requests_of b ((clock, parts) ∷ cs) = asked b (user_key parts) clock parts (requests_of b cs)

  abbrev add_passed : Outcome T R → ℕ → ℕ
  add_passed (inner p) n = n + 1
  add_passed (rate_limit w) n = n
  add_passed (key_rejection r) n = n

  module _ (dec : Discrete (Entry T)) where
    abbrev of_entry : {e f : Entry T} → Dec (e ≡ f) → Outcome T R → ℕ → ℕ
    of_entry (yes same) o n = add_passed o n
    of_entry (no other) o n = n

    -- One more call that is passed on, if it is counted under the entry.
    abbrev counted : Layer quotas → Entry T → Result T R → Parts T → Outcome T R → ℕ → ℕ
    counted b e (err r) parts o n = n
    counted b e (ok u) parts o n =
        of_entry (dec (as_entry (select quotas b (key_of quotas table user_key parts u)).0) e) o n

    -- The calls one after the other, and how many of an entry are passed to the inner service.
    abbrev pub passed : Layer quotas → Entry T → List (ℕ × Parts T) → Limiter table → Option ℕ
    passed b e [] s = some 0
    passed b e ((clock, parts) ∷ cs) s = do
      r ← call quotas table user_key b clock parts s
      n ← passed b e cs r.0
      some (counted b e (user_key parts) parts r.1 n)

    abbrev pub AllFree : List (ℕ × Parts T) → Type 0
    AllFree [] = Unit
    AllFree ((clock, parts) ∷ cs) = Free quotas table user_key parts × AllFree cs

    of_entry-count :
        {e f : Entry T} (d : Dec (e ≡ f)) (p : Parts T) (v : Verdict table) (n : ℕ)
        → of_entry d (answer p v) n ≡ count d v n
    of_entry-count (yes same) p (ok u) n = refl
    of_entry-count (yes same) p (err w) n = refl
    of_entry-count (no other) p v n = refl

    bind_some : (o : Option ℕ) → (o >>= λ n. some n) ≡ o
    bind_some none = refl
    bind_some (some n) = refl

    -- The calls after the first.
    then_calls :
        (b : Layer quotas) (e : Entry T) (p : Parts T) (cs : List (ℕ × Parts T)) {f : Entry T}
        (d : Dec (f ≡ e)) (r : Option (Limiter table × Verdict table))
        → ((s : Limiter table) → passed b e cs s ≡ admitted table dec e (requests_of b cs) s)
        → (answers p r >>= λ v. (passed b e cs v.0 >>= λ n. some (of_entry d v.1 n)))
          ≡ (r >>= λ v. (admitted table dec e (requests_of b cs) v.0 >>= λ n. some (count d v.1 n)))
    then_calls b e p cs d none ih = refl
    then_calls b e p cs d (some (s, v)) ih = rw (ih s) (
        ap (λ (g : ℕ → ℕ). admitted table dec e (requests_of b cs) s >>= λ n. some (g n))
          (λ i n. of_entry-count d p v n i))

    passed-admitted :
        (b : Layer quotas) (e : Entry T) (cs : List (ℕ × Parts T)) (s : Limiter table)
        → AllFree cs
        → passed b e cs s ≡ admitted table dec e (requests_of b cs) s
    passed-admitted b e [] s free = refl
    passed-admitted b e ((clock, parts) ∷ cs) s (free, more) =
        elim (Result-cases (user_key parts)) [
          | inr (r, rejected) ↦
              rw (call_rejected b clock parts s r rejected, rejected, passed-admitted b e cs s more)
                (bind_some (admitted table dec e (requests_of b cs) s))
          | inl (u, keyed) ↦
              let k = key_of quotas table user_key parts u in
              let now = now_of clock parts.start_time in
              let (p, go) = admit-req b k now parts s free in
              rw (call-admit quotas table user_key b clock parts u s keyed, go, keyed)
                (then_calls b e p cs (dec (as_entry (select quotas b k).0) e)
                  (Limits.req table (as_entry (select quotas b k).0) (select quotas b k).1 now s)
                  (λ t. passed-admitted b e cs t more))
        ]

    -- From any state of the limiter whose collection interval is not zero, let calls of the service
    -- come in the order of their requests' instants, none before `now` and none after `last` since
    -- the limiter's start, none of them with a callback that was set, and let the requests that are
    -- counted under an entry all go by one quota. Then no call panics, and the first instant plus
    -- one interval for each request of this entry that reaches the inner service is at most `last`
    -- plus the quota's burst offset and one interval, if that sum is in range of `u64`.
    pub passed-rate :
        (b : Layer quotas) (e : Entry T) (q : Quota) (now last : ℕ) (cs : List (ℕ × Parts T))
        (s : Limiter table)
        → s.gc_interval ≢ 0
        → last + q.tau + q.t ≤ u64_max
        → AllFree cs
        → Timed e q s.start now last (requests_of b cs)
        → (n : ℕ) × (passed b e cs s ≡ some n) × (now + n * q.t ≤ last + q.tau + q.t)
    passed-rate b e q now last cs s gc_on room free timed =
        let (n, all, bound) =
          admitted-rate table dec e q now last (requests_of b cs) s gc_on room timed in
        (n, passed-admitted b e cs s free ∙ all, bound)
