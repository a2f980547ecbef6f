-- ===== src/Gcra/Bounds.antt =====
-- layers/rate_limit/gcra.rs: one decision, and what a quota of `Quota::new` meets.
use ftl.Prelude.{ℕ, ◌+◌, ◌*◌, ◌≤◌, ◌<◌, max, min, ◌≡◌, ◌↔◌, ok, err, arith}
use ftl.Prelude.Words.{u64_max, as_u64}
use ftl.Gcra.{Quota, new, first, decide}

-- A refused request waits until the cell is due.
pub decide_wait :
    (prev now : ℕ) (q : Quota) (e : ℕ)
    → decide prev now q ≡ err e
    → (0 < e) × (now + e + q.tau ≡ prev)
unfolding decide
decide_wait prev now q e h = ground arith

pub decide_iff :
    (prev now : ℕ) (q : Quota)
    → (decide prev now q ≡ ok (min (max now prev + q.t) u64_max)) ↔ (prev ≤ now + q.tau)
unfolding decide
decide_iff prev now q = ground arith

-- What every quota of `Quota::new` meets: the burst offset holds one interval at least.
pub record IsQuota (q : Quota) : Type 0 where
  pub word : q.tau ≤ u64_max
  pub burst : q.t ≤ q.tau

le_mul : (a b : ℕ) → 0 < b → a ≤ a * b
le_mul a b h = grind arith

pub new-IsQuota : (interval burst : ℕ) → 0 < burst → IsQuota (new interval burst)
unfolding new
new-IsQuota interval burst h = omega (arith, le_mul (as_u64 interval) burst h)

pub first-decide :
    (q : Quota) (now : ℕ)
    → IsQuota q
    → now + q.t ≤ u64_max
    → decide (now + q.t) now q ≡ ok (first q now)
unfolding decide first
first-decide q now v h = ground arith

pub first_lem : (q : Quota) (now : ℕ) → now + q.t + q.t ≤ u64_max → first q now ≡ now + q.t + q.t
unfolding first
first_lem q now h = omega arith
