-- ===== src/Acceptor/Limit.antt =====
-- serve/accept/limited.rs: the streams of a tracker against the limit.
use ftl.Prelude.{ℕ, ◌+◌, ◌≤◌, ◌<◌, ◌≡◌, max, Option, none, some, List, [], ◌∷◌, arith}
use ftl.Acceptor.{World, Event, peek, enter, add, sub, drop, lock, remove, step, run, start}

abbrev pub Below : Option ℕ → ℕ → Type 0
Below none n = Unit
Below (some c) n = c < n

-- At one tracker: every stream and every task over the limit is counted, and no tracker that is
-- still to come is in use.
pub record IsCounted (limit : ℕ) (w : World) (c : ℕ) : Type 0 where
  pub covered : w.live c + w.rejecting c ≤ w.count c
  pub bounded : w.live c ≤ max limit 1
  pub unused :
      w.fresh ≤ c → (w.count c ≡ 0) × (w.live c ≡ 0) × (w.rejecting c ≡ 0) × (w.holding c ≡ 0)
  pub known : Below w.entry w.fresh

step-IsCounted :
    (limit : ℕ) (w : World) (e : Event) (c : ℕ)
    → IsCounted limit w c
    → IsCounted limit (step limit w e) c
unfolding step
step-IsCounted limit w peek c v = ground arith
step-IsCounted limit w enter c v = ground arith
step-IsCounted limit w (add d) c v = ground arith
step-IsCounted limit w (sub d) c v = ground arith
step-IsCounted limit w (drop d) c v = ground arith
step-IsCounted limit w lock c v = ground arith
step-IsCounted limit w remove c v = ground arith

run-IsCounted :
    (limit : ℕ) (w : World) (es : List Event) (c : ℕ)
    → IsCounted limit w c
    → IsCounted limit (run limit w es) c
unfolding run
run-IsCounted limit w [] c v = v
run-IsCounted limit w (e ∷ es) c v =
    run-IsCounted limit (step limit w e) es c (step-IsCounted limit w e c v)

start-IsCounted : (limit c : ℕ) → IsCounted limit start c
unfolding start
start-IsCounted limit c = ground arith

-- In any interleaving of accepting and dropping tasks from an empty table, no tracker ever has more
-- live streams than the limit, or than one if the limit is zero, and its live streams with the
-- tasks over the limit that have not yet taken themselves back never exceed its count.
pub live-le-limit :
    (limit c : ℕ) (es : List Event)
    → let w = run limit start es in
      (w.live c ≤ max limit 1) × (w.live c + w.rejecting c ≤ w.count c)
live-le-limit limit c es =
    let v = run-IsCounted limit start es c (start-IsCounted limit c) in (v.bounded, v.covered)
