-- ===== src/Limiter/Requests.antt =====
-- layers/rate_limit/gcra.rs: one call of `RateLimiter::req` and the table.
use ftl.Prelude.{
  ℕ, ◌+◌, ◌≡◌, ◌≢◌, ◌↔◌, Option, none, some, ok, err, leb, Option-cases, inl, inr, arith, min, max,
  ◌⊎◌,
}
use mathlib.Core.Option
use ftl.Prelude.Words.{u64_max}
use ftl.Table.{Table, keep}
use ftl.Gcra.{Quota, first, decide}
use ftl.Gcra as Cell
use ftl.Limiter.{relative, Limiter, Verdict, collect, on_cell, enter, req, req_peek_key}

module _ {K : Type 0} (table : Table K ℕ) where
  -- A request panics exactly when its key has no cell and the collection interval is zero.
  pub req-eq-none_iff :
      (key : K) (q : Quota) (ts : ℕ) (s : Limiter table)
      → (req table key q ts s ≡ none) ↔ ((table.get key s.limits ≡ none) × (s.gc_interval ≡ 0))
  unfolding req
  req-eq-none_iff key q ts s = ground arith

  -- What `peek` was told.
  abbrev pub told : K → Verdict table → Option K
  told key (ok _) = some key
  told key (err _) = none

  -- `req_peek_key` is `req`, and calls `peek` on the key exactly when the request is admitted.
  pub req_peek_key-req :
      (key : K) (q : Quota) (ts : ℕ) (s : Limiter table)
      → req_peek_key table key q ts s
        ≡ Option.map (λ r. (r.0, r.1, told key r.1)) (req table key q ts s)
  unfolding req req_peek_key
  req_peek_key-req key q ts s = ground arith

  -- A request on a key that has a cell is decided by that cell alone, at the relative time; the
  -- key's cell afterwards is the one that this decision leaves, and the collection counter does not
  -- move.
  pub req_known :
      (key : K) (q : Quota) (ts cell : ℕ) (s s' : Limiter table) (v : Verdict table)
      → table.get key s.limits ≡ some cell
      → req table key q ts s ≡ some (s', v)
      → (v ≡ (Cell.req cell q (relative s ts)).1)
        × (table.get key s'.limits ≡ some (Cell.req cell q (relative s ts)).0)
        × (s'.last_gc ≡ s.last_gc)
  unfolding req on_cell Cell.req
  req_known key q ts cell s s' v known e =
      ground
        (arith, table.get-insert_self key (min (max (relative s ts) cell + q.t) u64_max) s.limits)

  collect-eq :
      (now : ℕ) (s s' : Limiter table) (j : K)
      → collect table now s ≡ some s'
      → (table.get j s'.limits ≡ table.get j s.limits)
        ⊎ (table.get j s'.limits ≡ keep (λ v. leb now v) (table.get j s.limits))
  unfolding collect
  collect-eq now s s' j e = ground (arith, table.get-retain j (λ v. leb now v) s.limits)

  collect-none :
      (now : ℕ) (s s' : Limiter table) (key : K)
      → collect table now s ≡ some s'
      → table.get key s.limits ≡ none
      → table.get key s'.limits ≡ none
  collect-none now s s' key e h = ground (arith, collect-eq now s s' key e)

  enter_vacant :
      (key : K) (q : Quota) (now : ℕ) (s : Limiter table)
      → table.get key s.limits ≡ none
      → enter table key q now s
        ≡ (record s { limits = table.insert key (first q now) s.limits }, ok tt)
  unfolding enter
  enter_vacant key q now s h = ground arith

  -- The slow path, taken apart.
  req_slow :
      (key : K) (q : Quota) (ts : ℕ) (s s' : Limiter table) (v : Verdict table)
      → table.get key s.limits ≡ none
      → req table key q ts s ≡ some (s', v)
      → (c : Limiter table) × (collect table (relative s ts) s ≡ some c)
        × (s' ≡ record c { limits = table.insert key (first q (relative s ts)) c.limits })
        × (v ≡ ok tt)
  unfolding req
  req_slow key q ts s s' v unknown e = elim (Option-cases (collect table (relative s ts) s)) [
    | inl stop ↦ absurd (ground arith)
    | inr (c, go) ↦
        let w =
          enter_vacant key q (relative s ts) c (collect-none (relative s ts) s c key go unknown) in
        (c, go, ground arith, ground arith)
  ]

  -- A key with no cell is admitted, and gets its first cell.
  pub req_fresh :
      (key : K) (q : Quota) (ts : ℕ) (s s' : Limiter table) (v : Verdict table)
      → table.get key s.limits ≡ none
      → req table key q ts s ≡ some (s', v)
      → (v ≡ ok tt) × (table.get key s'.limits ≡ some (first q (relative s ts)))
  req_fresh key q ts s s' v unknown e =
      let (c, _, same, admitted) = req_slow key q ts s s' v unknown e in
      (admitted, rw same (table.get-insert_self key (first q (relative s ts)) c.limits))

  req_known_other :
      (key j : K) (q : Quota) (ts cell : ℕ) (s s' : Limiter table) (v : Verdict table)
      → key ≢ j
      → table.get key s.limits ≡ some cell
      → req table key q ts s ≡ some (s', v)
      → table.get j s'.limits ≡ table.get j s.limits
  unfolding req on_cell Cell.req
  req_known_other key j q ts cell s s' v ne known e =
      ground (
        arith,
        table.get-insert_ne key j (min (max (relative s ts) cell + q.t) u64_max) s.limits ne,
      )

  -- A request on one key that does not panic leaves every other key's cell as it was, but that a
  -- collection at the request's time may drop it if it is past.
  pub req_other :
      (key j : K) (q : Quota) (ts : ℕ) (s s' : Limiter table) (v : Verdict table)
      → key ≢ j
      → req table key q ts s ≡ some (s', v)
      → (table.get j s'.limits ≡ table.get j s.limits)
        ⊎ (table.get j s'.limits ≡ keep (λ c. leb (relative s ts) c) (table.get j s.limits))
  req_other key j q ts s s' v ne e = elim (Option-cases (table.get key s.limits)) [
    | inl unknown ↦
        let (c, go, same, _) = req_slow key q ts s s' v unknown e in
        rw (same, table.get-insert_ne key j (first q (relative s ts)) c.limits ne)
          (collect-eq (relative s ts) s c j go)
    | inr (cell, known) ↦ inl (req_known_other key j q ts cell s s' v ne known e)
  ]
