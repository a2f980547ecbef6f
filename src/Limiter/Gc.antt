-- ===== src/Limiter/Gc.antt =====
-- layers/rate_limit/gcra.rs: the collection, the penalties and the reset.
use ftl.Prelude.{
  ℕ, ap, ◌+◌, ◌-◌, ◌≤◌, ◌<◌, ◌≡◌, ◌≢◌, ◌∙◌, sym, true, Option, none, some, ok, err, leb,
  Option-cases, Bool-cases, inl, inr, arith,
}
use ftl.Prelude.Words.{u64_max, as_u64}
use ftl.Table.{Table, keep}
use ftl.Gcra.{Quota, decide}
use ftl.Gcra as Cell
use ftl.Limiter.{relative, Limiter, Verdict, gc, on_cell, req, penalize, reset}
use ftl.Limiter.Requests.{req-eq-none_iff, req_fresh}

past_admitted : (cell now : ℕ) (q : Quota) → cell ≤ now → (Cell.req cell q now).1 ≡ ok tt
unfolding Cell.req decide
past_admitted cell now q h = ground arith

early_refused :
    (cell now : ℕ) (q : Quota)
    → now + q.tau < cell
    → (Cell.req cell q now).1 ≡ err (cell - q.tau - now)
unfolding Cell.req decide
early_refused cell now q h = ground arith

module _ {K : Type 0} (table : Table K ℕ) where
  -- `gc` keeps exactly the cells that are not past.
  get-gc :
      (j : K) (now : ℕ) (s : Limiter table)
      → table.get j (gc table now s).limits ≡ keep (λ c. leb now c) (table.get j s.limits)
  unfolding gc
  get-gc j now s = table.get-retain j (λ c. leb now c) s.limits

  abbrev pub verdict : Option (Limiter table × Verdict table) → Option (Verdict table)
  verdict none = none
  verdict (some (s, v)) = some v

  verdict_fresh :
      (key : K) (q : Quota) (ts : ℕ) (s : Limiter table)
      → table.get key s.limits ≡ none
      → s.gc_interval ≢ 0
      → verdict (req table key q ts s) ≡ some (ok tt)
  verdict_fresh key q ts s h g = elim (Option-cases (req table key q ts s)) [
    | inl stop ↦ absurd (g ((req-eq-none_iff table key q ts s).0 stop).1)
    | inr ((s', v), go) ↦ rw go (ap some (req_fresh table key q ts s s' v h go).0)
  ]

  verdict_known :
      (key : K) (q : Quota) (ts cell : ℕ) (s : Limiter table)
      → table.get key s.limits ≡ some cell
      → verdict (req table key q ts s) ≡ some (Cell.req cell q (relative s ts)).1
  unfolding req on_cell Cell.req
  verdict_known key q ts cell s h = ground arith

  verdict_dropped :
      (key : K) (q : Quota) (ts now cell : ℕ) (s : Limiter table)
      → s.gc_interval ≢ 0
      → cell ≤ relative s ts
      → table.get key s.limits ≡ some cell
      → table.get key (gc table now s).limits ≡ none
      → verdict (req table key q ts (gc table now s)) ≡ verdict (req table key q ts s)
  unfolding gc
  verdict_dropped key q ts now cell s g h known gone =
      verdict_fresh key q ts (gc table now s) gone g
      ∙ sym (verdict_known key q ts cell s known ∙ ap some (past_admitted cell (relative s ts) q h))

  verdict_kept :
      (key : K) (q : Quota) (ts now cell : ℕ) (s : Limiter table)
      → table.get key s.limits ≡ some cell
      → table.get key (gc table now s).limits ≡ some cell
      → verdict (req table key q ts (gc table now s)) ≡ verdict (req table key q ts s)
  unfolding gc relative
  verdict_kept key q ts now cell s known kept =
      verdict_known key q ts cell (gc table now s) kept ∙ sym (verdict_known key q ts cell s known)

  verdict-none :
      (key : K) (q : Quota) (ts now : ℕ) (s : Limiter table)
      → s.gc_interval ≢ 0
      → table.get key s.limits ≡ none
      → table.get key (gc table now s).limits ≡ none
      → verdict (req table key q ts (gc table now s)) ≡ verdict (req table key q ts s)
  unfolding gc
  verdict-none key q ts now s g unknown gone =
      verdict_fresh key q ts (gc table now s) gone g ∙ sym (verdict_fresh key q ts s unknown g)

  -- A collection at a relative time that is no later than the request's own does not change the
  -- verdict of any request on any key, if the collection interval is not zero.
  pub gc-verdict :
      (key : K) (q : Quota) (ts now : ℕ) (s : Limiter table)
      → s.gc_interval ≢ 0
      → now ≤ relative s ts
      → verdict (req table key q ts (gc table now s)) ≡ verdict (req table key q ts s)
  gc-verdict key q ts now s g h = elim (Option-cases (table.get key s.limits)) [
    | inl unknown ↦ verdict-none key q ts now s g unknown (ground (arith, get-gc key now s))
    | inr (cell, known) ↦ elim (Bool-cases (leb now cell)) [
      | inl stays ↦ verdict_kept key q ts now cell s known (ground (arith, get-gc key now s))
      | inr goes ↦
          verdict_dropped key q ts now cell s g (ground arith) known
            (ground (arith, get-gc key now s))
    ]
  ]

  penalize-eq :
      (key : K) (penalty cell : ℕ) (s : Limiter table)
      → table.get key s.limits ≡ some cell
      → cell + penalty ≤ u64_max
      → penalize table key penalty s
        ≡ (record s { limits = table.insert key (cell + penalty) s.limits }, true)
  unfolding penalize
  penalize-eq key penalty cell s known room =
      let e : as_u64 (cell + as_u64 penalty) ≡ cell + penalty = omega arith in ground arith

  verdict_inserted :
      (key : K) (q : Quota) (ts cell : ℕ) (s : Limiter table)
      → verdict (req table key q ts (record s { limits = table.insert key cell s.limits }))
        ≡ some (Cell.req cell q (relative s ts)).1
  unfolding relative
  verdict_inserted key q ts cell s =
      verdict_known key q ts cell (record s { limits = table.insert key cell s.limits })
        (table.get-insert_self key cell s.limits)

  -- If a key has a cell, the cell with the penalty is in range of `u64`, and this sum is later than
  -- the request's relative time plus the burst offset, then `penalize` reports the key as found,
  -- and the request after it is refused with exactly the difference as its wait.
  pub penalize_wait :
      (key : K) (q : Quota) (penalty ts cell : ℕ) (s : Limiter table)
      → table.get key s.limits ≡ some cell
      → cell + penalty ≤ u64_max
      → relative s ts + q.tau < cell + penalty
      → ((penalize table key penalty s).1 ≡ true)
        × (verdict (req table key q ts (penalize table key penalty s).0)
            ≡ some (err (cell + penalty - q.tau - relative s ts)))
  penalize_wait key q penalty ts cell s known room early =
      let e = penalize-eq key penalty cell s known room in
      (
        ap (λ r. r.1) e,
        rw e (
            verdict_inserted key q ts (cell + penalty) s
            ∙ ap some (early_refused (cell + penalty) (relative s ts) q early)),
      )

  -- After a reset the next request on the key is admitted, if the collection interval is not zero.
  pub reset-verdict :
      (key : K) (q : Quota) (ts : ℕ) (s : Limiter table)
      → s.gc_interval ≢ 0
      → verdict (req table key q ts (reset table key s).0) ≡ some (ok tt)
  unfolding reset
  reset-verdict key q ts s g =
      verdict_fresh key q ts (record s { limits = table.remove key s.limits })
        (table.get-remove_self key s.limits) g
