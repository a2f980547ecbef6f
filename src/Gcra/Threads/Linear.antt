-- ===== src/Gcra/Threads/Linear.antt =====
-- layers/rate_limit/gcra.rs: the interleaved `Gcra::req` against the sequential one.
use ftl.Prelude.{
  ℕ, ◌+◌, ◌-◌, ◌≤◌, ◌<◌, ◌≡◌, refl, inl, inr, Bool, true, some, List, [], ◌∷◌, Result, ok, err,
  ◌==◌, ◌&&◌, not, Bool-cases, arith,
}
use ftl.Prelude.Words.{u64_max}
use ftl.Gcra.{Quota, decide}
use ftl.Gcra.Threads.{
  Request, Phase, idle, loaded, returned, World, Event, load, attempt, at_thread, exchange, turn,
  step, run, start, replay,
}

step-replay :
    (c0 : ℕ) (w : World) (e : Event)
    → replay c0 w.granted ≡ some w.cell
    → replay c0 (step w e).granted ≡ some (step w e).cell
unfolding step replay
step-replay c0 w (load i r) h = h
step-replay c0 w (attempt i spurious) h = ground arith

run-replay :
    (c0 : ℕ) (w : World) (es : List Event)
    → replay c0 w.granted ≡ some w.cell
    → replay c0 (run w es).granted ≡ some (run w es).cell
unfolding run
run-replay c0 w [] h = h
run-replay c0 w (e ∷ es) h = run-replay c0 (step w e) es (step-replay c0 w e h)

-- For any sequence of loads and exchange attempts of any threads on one cell, spurious failures of
-- the weak exchange included, serving the granted requests alone, one after the other in the order
-- of their grants, grants each of them again and leaves the same cell.
pub run-linear :
    (cell : ℕ) (es : List Event)
    → replay cell (run (start cell) es).granted ≡ some (run (start cell) es).cell
unfolding start replay
run-linear cell es = run-replay cell (start cell) es refl

-- What a thread holds is no later than the cell, and a wait that it was told is not too long.
abbrev Current : ℕ → Phase → Type 0
Current cell idle = Unit
Current cell (loaded prev r) = prev ≤ cell
Current cell (returned r (ok _)) = Unit
Current cell (returned r (err e)) = (0 < e) × (r.now + e + r.quota.tau ≤ cell)

Current-mono : (c d : ℕ) (p : Phase) → c ≤ d → Current c p → Current d p
Current-mono c d idle h k = tt
Current-mono c d (loaded prev r) h k = omega arith
Current-mono c d (returned r (ok _)) h k = tt
Current-mono c d (returned r (err e)) h k = omega arith

record IsCurrent (w : World) : Type 0 where
  word : w.cell ≤ u64_max
  phases : (i : ℕ) → Current w.cell (w.phase i)

decide_grows :
    (prev now next : ℕ) (q : Quota)
    → prev ≤ u64_max
    → decide prev now q ≡ ok next
    → (prev ≤ next) × (next ≤ u64_max)
unfolding decide
decide_grows prev now next q h e = ground arith

at_thread-Current :
    (c i : ℕ) (p : Phase) (phase : ℕ → Phase)
    → Current c p
    → ((j : ℕ) → Current c (phase j))
    → (j : ℕ) → Current c (at_thread i p phase j)
at_thread-Current c i p phase h k j = elim (Bool-cases (i == j)) [
  | inl e ↦ rw e h
  | inr e ↦ rw e (k j)
]

exchange-IsCurrent :
    (w : World) (i prev : ℕ) (r : Request) (spurious : Bool) (d : Result ℕ ℕ)
    → decide prev r.now r.quota ≡ d
    → prev ≤ w.cell
    → IsCurrent w
    → IsCurrent (exchange w i prev r spurious d)
unfolding exchange decide
exchange-IsCurrent w i prev r spurious (err e) h l v = record {
  word = v.word;
  phases = at_thread-Current w.cell i (returned r (err e)) w.phase (ground arith) v.phases;
}
exchange-IsCurrent w i prev r spurious (ok next) h l v =
    elim (Bool-cases (w.cell == prev && not spurious)) [
      | inl done ↦ rw done (record {
        word = (decide_grows prev r.now next r.quota (omega (arith, v.word)) h).1;
        phases =
            at_thread-Current next i (returned r (ok tt)) w.phase tt
              (λ j. Current-mono w.cell next (w.phase j) (swapped done) (v.phases j));
      })
      | inr retry ↦ rw retry (record {
        word = v.word;
        phases = at_thread-Current w.cell i (loaded w.cell r) w.phase (omega arith) v.phases;
      })
    ]
  where
    swapped : (w.cell == prev && not spurious) ≡ true → w.cell ≤ next
    swapped done = ground (arith, v.word)

turn-IsCurrent :
    (w : World) (i : ℕ) (spurious : Bool) (p : Phase)
    → Current w.cell p
    → IsCurrent w
    → IsCurrent (turn w i spurious p)
unfolding turn
turn-IsCurrent w i spurious idle h v = v
turn-IsCurrent w i spurious (loaded prev r) h v =
    exchange-IsCurrent w i prev r spurious (decide prev r.now r.quota) refl h v
turn-IsCurrent w i spurious (returned r d) h v = v

step-IsCurrent : (w : World) (e : Event) → IsCurrent w → IsCurrent (step w e)
unfolding step
step-IsCurrent w (load i r) v = record {
  word = v.word;
  phases = at_thread-Current w.cell i (loaded w.cell r) w.phase (omega arith) v.phases;
}
step-IsCurrent w (attempt i spurious) v = turn-IsCurrent w i spurious (w.phase i) (v.phases i) v

run-IsCurrent : (w : World) (es : List Event) → IsCurrent w → IsCurrent (run w es)
unfolding run
run-IsCurrent w [] v = v
run-IsCurrent w (e ∷ es) v = run-IsCurrent (step w e) es (step-IsCurrent w e v)

start-IsCurrent : (cell : ℕ) → cell ≤ u64_max → IsCurrent (start cell)
unfolding start
start-IsCurrent cell h = record { word = h; phases = λ i. tt }

refused :
    (c e : ℕ) (r : Request)
    → Current c (returned r (err e))
    → (decide c r.now r.quota ≡ err (c - r.quota.tau - r.now)) × (e ≤ c - r.quota.tau - r.now)
unfolding decide
refused c e r h = ground arith

-- In any interleaving from a cell in range of `u64`, whenever a thread's call has returned a
-- refusal, the cell as it is now refuses the same request too, and the wait that was returned is no
-- longer than what is left to wait now.
pub run-refused :
    (cell : ℕ) (es : List Event) (i : ℕ) (r : Request) (e : ℕ)
    → cell ≤ u64_max
    → (run (start cell) es).phase i ≡ returned r (err e)
    → let c = (run (start cell) es).cell in
      (decide c r.now r.quota ≡ err (c - r.quota.tau - r.now)) × (e ≤ c - r.quota.tau - r.now)
run-refused cell es i r e h p =
    let v = run-IsCurrent (start cell) es (start-IsCurrent cell h) in
    let k = v.phases i in refused (run (start cell) es).cell e r (rw p at k)
