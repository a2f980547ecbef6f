-- ===== src/Limiter/Rate.antt =====
-- layers/rate_limit/gcra.rs: what the limiter admits of one key over time, whatever is asked of it for
-- other keys, and whatever is collected.
use ftl.Prelude.{
  ℕ, ◌+◌, ◌-◌, ◌*◌, ◌≤◌, ◌≡◌, ◌≢◌, ◌⊎◌, inl, inr, refl, sym, ◌∙◌, max, Option, none, some,
  Option-cases, Result-cases, List, [], ◌∷◌, Result, ok, err, leb, arith, ◌>>=◌,
}
use mathlib.Core.Path.{subst}
use ftl.Prelude.Words.{u64_max}
use ftl.Table.{Table, keep}
use ftl.Gcra.{Quota, first, count_ok}
use ftl.Gcra as Cell
use ftl.Limiter.{relative, Limiter, Verdict, clean, gc, req}
use ftl.Limiter.Requests.{req-eq-none_iff, req_known, req_fresh, req_other}
pub mod Owed
pub mod Bound

-- A request of a key at an instant, or a cleaning before one.
pub data Event (K : Type 0) : Type 0 where
  ask : K → Quota → ℕ → Event K
  sweep : ℕ → Event K

module _ {K : Type 0} where
  abbrev pub count : {j k : K} → Dec (j ≡ k) → Result (Unit {0}) ℕ → ℕ → ℕ
  count (yes same) v n = count_ok v n
  count (no other) v n = n

  -- The nanoseconds since the limiter's start, none before `now` and none after `last`, do not go
  -- back, and the key's requests all have the quota.
  abbrev pub Timed : K → Quota → ℕ → ℕ → ℕ → List (Event K) → Type 0
  Timed k q start now last [] = now ≤ last
  Timed k q start now last (ask j p ts ∷ es) =
      (now ≤ ts - start) × (j ≡ k → p ≡ q) × Timed k q start (ts - start) last es
  Timed k q start now last (sweep before ∷ es) =
      (now ≤ before - start) × Timed k q start (before - start) last es

-- The events one after the other, and how many requests of a key are admitted.
abbrev pub admitted :
    {K : Type 0} (table : Table K ℕ) → Discrete K → K → List (Event K) → Limiter table → Option ℕ
admitted table dec k [] s = some 0
admitted table dec k (ask j q ts ∷ es) s = do
  r ← req table j q ts s
  n ← admitted table dec k es r.0
  some (count (dec j k) r.1 n)
admitted table dec k (sweep before ∷ es) s = admitted table dec k es (clean table before s)
