-- ===== src/RateLimit/Extension/Resets.antt =====
-- layers/rate_limit/mod.rs: what a handler does to the later requests of its user by the limiter that
-- the service left in the request.
use ftl.Prelude.{
  ℕ, ◌≡◌, ◌≢◌, ◌⊎◌, true, none, some, Result, ok, if◌then◌else◌, ap, arith, Bool, Option-cases,
  Bool-cases, inl, inr,
}
use ftl.Table.{Table}
use ftl.Gcra.{Quota}
use ftl.Limiter as Limits
use ftl.Limiter.{Limiter}
use ftl.Limiter.Requests.{req-eq-none_iff, req_fresh, req_peek_key-req}
use ftl.RateLimit.{Route, RouteWithKey, Entry, Layer, as_entry, select}
use ftl.RateLimit.Service.{Parts, inner, call, key_of, now_of, admit, call-inner, set_extension}
use ftl.RateLimit.Service as Service
use ftl.RateLimit.Extension.{reset}

module _ {T R : Type 0} (quotas : Table Route Quota) (table : Table (Entry T) ℕ)
    (user_key : Parts T → Result T R) where
  -- The callback that the request carries, if it carries one, was not set before.
  abbrev pub Free : Parts T → Type 0
  Free parts = (parts.callback ≡ none) ⊎ (parts.callback ≡ some none)

  fresh_admitted :
      (e : Entry T) (q : Quota) (now : ℕ) (s : Limiter table)
      → table.get e s.limits ≡ none
      → s.gc_interval ≢ 0
      → (s' : Limiter table) × (Limits.req_peek_key table e q now s ≡ some (s', ok tt, some e))
  fresh_admitted e q now s h gc = elim (Option-cases (Limits.req table e q now s)) [
    | inl stop ↦ absurd (gc ((req-eq-none_iff table e q now s).0 stop).1)
    | inr ((s', v), go) ↦
        (s', ground (arith, req_fresh table e q now s s' v h go, req_peek_key-req table e q now s))
  ]

  pub set_extension-Free :
      (k : RouteWithKey T) (parts : Parts T)
      → Free parts
      → (p : Parts T) × (set_extension k parts ≡ some p)
  unfolding set_extension
  set_extension-Free k parts (inl f) = (record parts { limiter = some k }, ground arith)
  set_extension-Free k parts (inr f) =
      (record parts { limiter = some k; callback = some (some k) }, ground arith)

  admit_fresh :
      (b : Layer quotas) (k : RouteWithKey T) (now : ℕ) (parts : Parts T) (s : Limiter table)
      → table.get (as_entry (select quotas b k).0) s.limits ≡ none
      → s.gc_interval ≢ 0
      → Free parts
      → (s' : Limiter table) × (p : Parts T) × (admit quotas table user_key b k now parts s
          ≡ some (s', inner p))
  unfolding admit
  admit_fresh b k now parts s h gc free =
      let (s', go) =
        fresh_admitted (as_entry (select quotas b k).0) (select quotas b k).1 now s h gc in
      let (p, extended) = set_extension-Free (select quotas b k).0 parts free in
      elim (Bool-cases b.extend) [
        | inl on ↦ (s', p, ground arith)
        | inr off ↦ (s', parts, ground arith)
      ]

  pub call-admit :
      (b : Layer quotas) (clock : ℕ) (parts : Parts T) (u : T) (s : Limiter table)
      → user_key parts ≡ ok u
      → call quotas table user_key b clock parts s
        ≡ admit quotas table user_key b
            (key_of quotas table user_key parts u)
            (now_of clock parts.start_time)
            parts
            s
  unfolding call
  call-admit b clock parts u s h = ground arith

  taken : {A : Type 0} (c : Bool) (x y z : A) → c ≡ true → z ≡ (if c then x else y) → z ≡ x
  taken c x y z h e = ground arith

  -- Let the service, extending requests, pass a request with a user key to the inner service. Then
  -- the parts passed on hold a limiter, and whatever was done in between, a reset through it has
  -- the service pass the next request of that user, for the same path and method, to the inner
  -- service, at any time, if the collection interval is not zero and that request carries no
  -- callback that was set.
  pub reset-call :
      (b : Layer quotas) (clock later : ℕ) (parts p next : Parts T) (u : T) (s s' t : Limiter table)
      → b.extend ≡ true
      → user_key parts ≡ ok u
      → user_key next ≡ ok u
      → next.matched_path ≡ parts.matched_path
      → next.method ≡ parts.method
      → Free next
      → t.gc_interval ≢ 0
      → call quotas table user_key b clock parts s ≡ some (s', inner p)
      → (k : RouteWithKey T) × (p.limiter ≡ some k)
        × (t' : Limiter table) × (n : Parts T) × (call quotas table user_key b later next
              (reset quotas table k t).0
            ≡ some (t', inner n))
  unfolding reset
  reset-call b clock later parts p next u s s' t on hu hn hp hm free gc e =
      let k = (select quotas b (key_of quotas table user_key parts u)).0 in
      let held = (call-inner quotas table user_key b clock parts p u s s' hu e).1 in
      let same =
        ap (λ (j : RouteWithKey T). (select quotas b j).0)
          (λ i. record { path = Service.path_of (hp i); method = some (hm i); key = u }) in
      let (t', n, go) =
        admit_fresh b (key_of quotas table user_key next u) (now_of later next.start_time) next
          (Limits.reset table (as_entry k) t).0
          (rw same (table.get-remove_self (as_entry k) t.limits)) gc free in
      (
        k,
        taken b.extend (some k) parts.limiter p.limiter on held,
        t',
        n,
        rw (call-admit b later next u (Limits.reset table (as_entry k) t).0 hn) go,
      )
