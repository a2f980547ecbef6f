-- ===== src/Gcra/Burst.antt =====
-- layers/rate_limit/gcra.rs: the requests of one key at one instant.
use ftl.Prelude.{ℕ, zero, suc, ◌+◌, ◌-◌, ◌*◌, ◌≤◌, ◌<◌, min, ◌≡◌, ok, err, replicate, arith}
use native.Mathlib.Decide.{dec_le}
use ftl.Prelude.Words.{u64_max}
use ftl.Gcra.{Quota, first, decide, req, admitted}

-- What keeps every sum of a burst at `now` below the saturation of `u64`.
pub record Fits (q : Quota) (burst now : ℕ) : Type 0 where
  pub tau : q.tau ≡ burst * q.t
  pub pos : 0 < q.t
  pub room : now + (burst * q.t + q.t) ≤ u64_max

mul_mono : (a b t : ℕ) → a ≤ b → a * t ≤ b * t
mul_mono a b t h = grind arith

mul_lt : (a b t : ℕ) → a < b → 0 < t → a * t < b * t
mul_lt a b t h p = grind arith

req_within :
    (q : Quota) (burst a now : ℕ)
    → Fits q burst now
    → a ≤ burst
    → req (now + a * q.t) q now ≡ (now + suc a * q.t, ok tt)
unfolding req decide
req_within q burst a now f h = ground (arith, mul_mono a burst q.t h)

req_beyond :
    (q : Quota) (burst a now : ℕ)
    → Fits q burst now
    → burst < a
    → req (now + a * q.t) q now ≡ (now + a * q.t, err (now + a * q.t - q.tau - now))
unfolding req decide
req_beyond q burst a now f h = ground (arith, mul_lt burst a q.t h f.pos)

admitted_from :
    (q : Quota) (burst now : ℕ) (f : Fits q burst now) (n a : ℕ)
    → admitted (now + a * q.t) q (replicate n now) ≡ min n (suc burst - a)
unfolding admitted
admitted_from q burst now f zero a = omega arith
admitted_from q burst now f (suc n) a = elim (dec_le a burst) [
  | yes h ↦ rw (req_within q burst a now f h) (omega (arith, admitted_from q burst now f n (suc a)))
  | no h ↦
      rw (req_beyond q burst a now f (omega arith)) (omega (arith, admitted_from q burst now f n a))
]

first-eq : (q : Quota) (burst now : ℕ) → 0 < burst → Fits q burst now → first q now ≡ now + 2 * q.t
unfolding first
first-eq q burst now h f = omega (arith, mul_mono 1 burst q.t h)

req_idle :
    (q : Quota) (burst now cell : ℕ)
    → cell ≤ now
    → Fits q burst now
    → req cell q now ≡ (now + 1 * q.t, ok tt)
unfolding req decide
req_idle q burst now cell h f = ground (arith, mul_mono 0 burst q.t)

-- For a quota with a positive interval and a burst of at least one, and a time that leaves room
-- below 2^64: of `n` further requests at the same instant on the cell that a key's first request
-- made, exactly the burst less one are admitted, or all `n` if they are fewer.
pub admitted-first :
    (q : Quota) (burst now n : ℕ)
    → 0 < burst
    → Fits q burst now
    → admitted (first q now) q (replicate n now) ≡ min n (burst - 1)
admitted-first q burst now n h f =
    let e : first q now ≡ now + 2 * q.t = first-eq q burst now h f in
    rw e (omega (arith, admitted_from q burst now f n 2))

-- For a quota whose burst offset is the burst times a positive interval, and a time that leaves
-- room for one interval more below 2^64: of `n` requests at the same instant on a cell that is
-- past, exactly the burst and one more are admitted, or all `n` if they are fewer.
pub admitted_idle :
    (q : Quota) (burst now cell n : ℕ)
    → cell ≤ now
    → Fits q burst now
    → admitted cell q (replicate n now) ≡ min n (burst + 1)
unfolding admitted
admitted_idle q burst now cell zero h f = omega arith
admitted_idle q burst now cell (suc n) h f =
    rw (req_idle q burst now cell h f) (omega (arith, admitted_from q burst now f n 1))
