-- ===== src/Gcra/Rate.antt =====
-- layers/rate_limit/gcra.rs: the grants of one key over time.
use ftl.Prelude.{
  ℕ, ◌+◌, ◌*◌, ◌≤◌, ◌≡◌, some, List, [], ◌∷◌, Result, ok, err, length, All, Option-cases, inl, inr,
  arith,
}
use ftl.Prelude.Words.{u64_max}
use ftl.Gcra.{Quota, decide}
use ftl.Gcra.Threads.{Request, replay, granted_cell, Event, run, start}
use ftl.Gcra.Threads.Linear.{run-linear}

-- Requests of one quota, none later than `last`.
abbrev pub Until : Quota → ℕ → Request → Type 0
Until q last r = (r.quota ≡ q) × (r.now ≤ last)

decide_step :
    (q : Quota) (last prev now next : ℕ)
    → last + q.tau + q.t ≤ u64_max
    → now ≤ last
    → decide prev now q ≡ ok next
    → (prev + q.t ≤ next) × (next ≤ last + q.tau + q.t)
unfolding decide
decide_step q last prev now next room h e = ground arith

mul_suc : (n t : ℕ) → (n + 1) * t ≡ n * t + t
mul_suc n t = omega arith

granted_cell-eq : (d : Result ℕ ℕ) (next : ℕ) → granted_cell d ≡ some next → d ≡ ok next
granted_cell-eq (ok n) next h = ground arith
granted_cell-eq (err e) next h = cc

replay_bound :
    (q : Quota) (last cell end : ℕ) (rs : List Request)
    → last + q.tau + q.t ≤ u64_max
    → cell ≤ last + q.tau + q.t
    → All (Until q last) rs
    → replay cell rs ≡ some end
    → (cell + length rs * q.t ≤ end) × (end ≤ last + q.tau + q.t)
unfolding replay
replay_bound q last cell end [] room h a e = ground arith
replay_bound q last cell end (r ∷ rs) room h (u, a) e = elim (Option-cases (replay cell rs)) [
  | inl gone ↦ absurd (ground arith)
  | inr (c, kept) ↦
      let ih = replay_bound q last cell c rs room h a kept in
      let d = granted_cell-eq (decide c r.now r.quota) end (ground arith) in
      let st = decide_step q last c r.now end room u.1 (rw (← u.0) d) in omega arith
]

-- For any interleaving of threads whose granted requests are all of one quota and none later than
-- `last`, the cell's first value plus one interval for each grant is at most `last` plus the burst
-- offset and one interval, if that sum is in range of `u64` and the cell starts no later than it:
-- the grants are bounded by the elapsed time and the burst.
pub run_rate :
    (q : Quota) (last cell : ℕ) (es : List Event)
    → last + q.tau + q.t ≤ u64_max
    → cell ≤ last + q.tau + q.t
    → All (Until q last) (run (start cell) es).granted
    → cell + length (run (start cell) es).granted * q.t ≤ last + q.tau + q.t
run_rate q last cell es room h a =
    let b =
      replay_bound q last cell (run (start cell) es).cell (run (start cell) es).granted room h a
        (run-linear cell es) in
    omega arith
