-- ===== src/Limiter/Rate/Owed.antt =====
-- layers/rate_limit/gcra.rs: how far a cell has come, or the clock.
use ftl.Prelude.{
  ℕ, ◌+◌, ◌≤◌, ◌≡◌, ◌⊎◌, inl, inr, max, Option, none, some, Result-cases, ok, err, leb, arith,
}
use ftl.Prelude.Words.{u64_max}
use ftl.Table.{keep}
use ftl.Gcra.{Quota, first, count_ok}
use ftl.Gcra as Cell

-- What is owed to a cell by now: it, or the clock, has come as far as `base`.
abbrev pub Owed : ℕ → ℕ → Option ℕ → Type 0
Owed base now none = base ≤ now
Owed base now (some cell) = base ≤ max cell now

known_admitted :
    (q : Quota) (base before now last cell : ℕ)
    → last + q.tau + q.t ≤ u64_max
    → base ≤ max cell before
    → before ≤ now
    → now ≤ last
    → (Cell.req cell q now).1 ≡ ok tt
    → (base + q.t ≤ (Cell.req cell q now).0) × (base + q.t ≤ last + q.tau + q.t)
unfolding Cell.req Cell.decide
known_admitted q base before now last cell room owed b l e = ground arith

known_refused :
    (q : Quota) (now cell w : ℕ) → (Cell.req cell q now).1 ≡ err w → (Cell.req cell q now).0 ≡ cell
unfolding Cell.req Cell.decide
known_refused q now cell w e = ground arith

-- A request on a cell, in its two cases.
pub on_known :
    (q : Quota) (base before now last cell : ℕ)
    → last + q.tau + q.t ≤ u64_max
    → base ≤ max cell before
    → before ≤ now
    → now ≤ last
    → let r = Cell.req cell q now in
      ((r.1 ≡ ok tt) × (base + q.t ≤ max r.0 now) × (base + q.t ≤ last + q.tau + q.t))
      ⊎ ((w : ℕ) × (r.1 ≡ err w) × (base ≤ max r.0 now))
on_known q base before now last cell room owed b l = elim (Result-cases (Cell.req cell q now).1) [
  | inl (u, granted) ↦
      let step = known_admitted q base before now last cell room owed b l granted in
      inl (granted, omega (arith, step), step.1)
  | inr (w, refused) ↦ inr (w, refused, rw (known_refused q now cell w refused) (omega arith))
]

pub first_owed :
    (q : Quota) (base now last : ℕ)
    → last + q.tau + q.t ≤ u64_max
    → base ≤ now
    → now ≤ last
    → (base + q.t ≤ first q now) × (base + q.t ≤ last + q.tau + q.t)
unfolding first
first_owed q base now last room b l = ground arith

pub Owed_later :
    (base before now : ℕ) (o o' : Option ℕ)
    → Owed base before o
    → before ≤ now
    → (o' ≡ o) ⊎ (o' ≡ keep (λ c. leb now c) o)
    → Owed base now o'
Owed_later base before now none none owed b h = omega arith
Owed_later base before now none (some c) owed b h = absurd (ground arith)
Owed_later base before now (some c) none owed b h = ground arith
Owed_later base before now (some c) (some d) owed b h = ground arith
