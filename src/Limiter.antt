-- ===== src/Limiter.antt =====
-- layers/rate_limit/gcra.rs: `RateLimiter`, the table of cells and its garbage collection, for a
-- caller that runs alone. The interleaved use of one cell is in Gcra/Threads. A panic is `none`.
use ftl.Prelude.{
  ℕ, ◌+◌, ◌-◌, ◌/◌, ◌%◌, ◌^◌, max, Bool, true, false, Option, none, some, List, [], ◌∷◌, Result, ok,
  err, ◌==◌, leb, if◌then◌else◌, ◌>>=◌, is_some,
}
use ftl.Prelude.Words.{u64_max, as_u64}
use ftl.Table.{Table}
use ftl.Gcra.{Quota, first}
use ftl.Gcra as Cell
pub mod Requests
pub mod Gc
pub mod Reply
pub mod Rate

pub record RateLimiter (M : Type 0) : Type 0 where
  pub start : ℕ
  pub gc_interval : ℕ
  pub last_gc : ℕ
  pub limits : M

-- `relative`: `saturating_duration_since`, then `as_nanos() as u64`.
unfoldable pub relative : {M : Type 0} → RateLimiter M → ℕ → ℕ
relative s ts = as_u64 (ts - s.start)

-- `should_gc`: the counter ticks unless the collection is off; `%` panics at an interval of 0.
unfoldable pub should_gc : {M : Type 0} → RateLimiter M → Option (Bool × RateLimiter M)
should_gc s =
    if s.gc_interval == u64_max
    then some (false, s)
    else if s.gc_interval == 0
    then none
    else some ((s.last_gc % s.gc_interval) == 0, record s { last_gc = as_u64 (s.last_gc + 1) })

module _ {K : Type 0} (table : Table K ℕ) where
  abbrev pub Limiter : Type 0
  Limiter = RateLimiter table.Map

  abbrev pub Verdict : Type 0
  Verdict = Result (Unit {0}) ℕ

  -- `RateLimiter::new` at the instant `now`.
  unfoldable pub new : ℕ → ℕ → Limiter
  new gc_interval now = record {
    start = now;
    gc_interval = gc_interval;
    last_gc = 1;
    limits = table.empty;
  }

  unfoldable pub gc : ℕ → Limiter → Limiter
  gc now s = record s { limits = table.retain (λ v. leb now v) s.limits }

  unfoldable pub clean : ℕ → Limiter → Limiter
  unfolding gc relative
  clean before s = gc (relative s before) (record s { last_gc = 1 })

  -- The slow path's collection.
  unfoldable pub collect : ℕ → Limiter → Option Limiter
  unfolding gc should_gc
  collect now s = do (due, s') ← should_gc s; some (if due then gc now s' else s')

  -- `gcra.req(quota, now)` on the cell in the table: a refusal writes nothing.
  abbrev store : K → Limiter → ℕ × Verdict → Limiter × Verdict
  store key s (cell, ok u) = (record s { limits = table.insert key cell s.limits }, ok u)
  store key s (cell, err e) = (s, err e)

  unfoldable pub on_cell : K → Quota → ℕ → Limiter → ℕ → Limiter × Verdict
  on_cell key q now s cell = store key s (Cell.req cell q now)

  -- `entry(key)`, occupied or vacant.
  unfoldable pub enter : K → Quota → ℕ → Limiter → Limiter × Verdict
  unfolding on_cell
  enter key q now s = elim (table.get key s.limits) [
    | some cell ↦ on_cell key q now s cell
    | none ↦ (record s { limits = table.insert key (first q now) s.limits }, ok tt)
  ]

  unfoldable pub req : K → Quota → ℕ → Limiter → Option (Limiter × Verdict)
  unfolding on_cell enter collect relative
  req key q ts s = elim (table.get key s.limits) [
    | some cell ↦ some (on_cell key q (relative s ts) s cell)
    | none ↦ do s' ← collect (relative s ts) s; some (enter key q (relative s ts) s')
  ]

  -- `req_peek_key`, with the key that `peek` was called on.
  abbrev peeked : K → Limiter × Verdict → Limiter × Verdict × Option K
  peeked key (s, ok u) = (s, ok u, some key)
  peeked key (s, err e) = (s, err e, none)

  unfoldable pub req_peek_key : K → Quota → ℕ → Limiter → Option (Limiter × Verdict × Option K)
  unfolding on_cell enter collect relative
  req_peek_key key q ts s = elim (table.get key s.limits) [
    | some cell ↦ some (peeked key (on_cell key q (relative s ts) s cell))
    | none ↦ do s' ← collect (relative s ts) s; some (peeked key (enter key q (relative s ts) s'))
  ]

  -- `fetch_add` wraps.
  unfoldable pub penalize : K → ℕ → Limiter → Limiter × Bool
  penalize key penalty s = elim (table.get key s.limits) [
    | some cell ↦
        (record s { limits = table.insert key (as_u64 (cell + as_u64 penalty)) s.limits }, true)
    | none ↦ (s, false)
  ]

  unfoldable pub reset : K → Limiter → Limiter × Bool
  reset key s = (record s { limits = table.remove key s.limits }, is_some (table.get key s.limits))

-- `RateLimitError::into_response`: the status and the headers; the text is not modelled.
pub record Response : Type 0 where
  pub status : ℕ
  pub ratelimit_reset : ℕ
  pub x_ratelimit_reset : ℕ
  pub retry_after : ℕ
  pub ratelimit_remaining : ℕ

abbrev pub nanos_per_sec : ℕ
nanos_per_sec = 1_000_000_000

unfoldable pub into_response : ℕ → Response
into_response e =
    let reset = max (e / nanos_per_sec) 1 in
    record {
      status = 429;
      ratelimit_reset = reset;
      x_ratelimit_reset = reset;
      retry_after = reset;
      ratelimit_remaining = 0;
    }
