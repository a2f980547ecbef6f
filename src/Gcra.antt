-- ===== src/Gcra.antt =====
-- layers/rate_limit/gcra.rs: quotas and the cell of one key. A `Duration` or an `Instant` is its
-- number of nanoseconds.
use ftl.Prelude.{
  ℕ, ◌+◌, ◌-◌, max, Bool, true, false, Result, ok, err, List, [], ◌∷◌, ltb, if◌then◌else◌,
}
use ftl.Prelude.Words.{as_u64, saturating_add, saturating_sub, saturating_mul}
pub mod Bounds
pub mod Burst
pub mod Threads
pub mod Rate

pub record Quota : Type 0 where
  pub tau : ℕ
  pub t : ℕ

-- `Quota::new`: `emission_interval.as_nanos() as u64`, and the burst offset.
unfoldable pub new : ℕ → ℕ → Quota
new emission_interval burst =
    let t = as_u64 emission_interval in record { t = t; tau = saturating_mul t burst }

-- `Quota::simple`: `NonZeroU64::MIN` is 1.
unfoldable pub simple : ℕ → Quota
unfolding new
simple emission_interval = new emission_interval 1

-- `Gcra::first`: the cell of a key at its first request.
unfoldable pub first : Quota → ℕ → ℕ
first q now = saturating_add (saturating_add now q.t) q.t

-- `Gcra::decide`: the cell's next value, or the nanoseconds to wait.
unfoldable pub decide : ℕ → ℕ → Quota → Result ℕ ℕ
decide prev now q =
    let next = saturating_sub prev q.tau in
    if ltb now next then err (next - now) else ok (saturating_add (max now prev) q.t)

-- `Gcra::req` with no other thread at the cell: the cell afterwards and the verdict.
abbrev settle : ℕ → Result ℕ ℕ → ℕ × Result (Unit {0}) ℕ
settle prev (ok next) = (next, ok tt)
settle prev (err e) = (prev, err e)

unfoldable pub req : ℕ → Quota → ℕ → ℕ × Result (Unit {0}) ℕ
unfolding decide
req prev q now = settle prev (decide prev now q)

-- How many of a caller's successive requests on one cell are admitted.
abbrev pub count_ok : Result (Unit {0}) ℕ → ℕ → ℕ
count_ok (ok _) n = n + 1
count_ok (err _) n = n

unfoldable pub admitted : ℕ → Quota → List ℕ → ℕ
unfolding req
admitted cell q [] = 0
admitted cell q (now ∷ nows) = count_ok (req cell q now).1 (admitted (req cell q now).0 q nows)
