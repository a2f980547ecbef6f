-- ===== src/RateLimit/Collector/Ends.antt =====
-- The collecting task of layers/rate_limit/mod.rs ends when the layers are gone, and not before.
use ftl.Prelude.{ℕ, ◌-◌, ◌≤◌, ◌≡◌, refl, Bool, true, false, List, [], ◌∷◌, arith, inl, inr, ◌⊎◌}
use std.Path.{ap₂}
use ftl.RateLimit.Collector.{
  Phase, looping, selecting, cleaning, ended, World, Event, tick, turn, clone, drop_builder,
  drop_limiter, start, notified, task, step, run,
}

-- No layer is left, and none is being dropped.
abbrev pub lost : Phase → Bool → World
lost p d = record { phase = p; due = d; builders = 0; limiters = 0 }

-- The turns that the task needs at most, with a tick before each.
rank : Phase → ℕ
rank looping = 3
rank (selecting false) = 2
rank (selecting true) = 1
rank cleaning = 1
rank ended = 0

step-lost :
    (e : Event) (p : Phase) (d : Bool)
    → (q : Phase) × (c : Bool) × (step e (lost p d) ≡ lost q c) × (rank q ≤ rank p)
unfolding step task notified rank
step-lost tick p d = (p, true, refl, omega arith)
step-lost clone p d = (p, d, refl, omega arith)
step-lost drop_builder p d = (p, d, refl, omega arith)
step-lost drop_limiter p d = (p, d, refl, omega arith)
step-lost turn looping d = (selecting false, d, refl, omega arith)
step-lost turn (selecting true) d = (ended, d, refl, omega arith)
step-lost turn (selecting false) true = (cleaning, false, refl, omega arith)
step-lost turn (selecting false) false = (selecting false, false, refl, omega arith)
step-lost turn cleaning d = (ended, d, refl, omega arith)
step-lost turn ended d = (ended, d, refl, omega arith)

run-lost :
    (es : List Event) (p : Phase) (d : Bool)
    → (q : Phase) × (c : Bool) × (run es (lost p d) ≡ lost q c) × (rank q ≤ rank p)
unfolding run
run-lost [] p d = (p, d, refl, omega arith)
run-lost (e ∷ es) p d =
    let (q, c, h, k) = step-lost e p d in
    let (r, b, i, l) = run-lost es q c in (r, b, rw h i, omega arith)

round_lost :
    (p : Phase) (d : Bool)
    → (q : Phase) × (c : Bool) × (run (tick ∷ turn ∷ []) (lost p d) ≡ lost q c)
      × (rank q ≤ rank p - 1)
unfolding run step task rank
round_lost looping d = (selecting false, true, refl, omega arith)
round_lost (selecting true) d = (ended, true, refl, omega arith)
round_lost (selecting false) d = (cleaning, false, refl, omega arith)
round_lost cleaning d = (ended, true, refl, omega arith)
round_lost ended d = (ended, true, refl, omega arith)

-- Some events, and then a tick and a turn of the task.
abbrev pub round : List Event → World → World
round es w = run (tick ∷ turn ∷ []) (run es w)

round_ranks :
    (es : List Event) (p : Phase) (d : Bool)
    → (q : Phase) × (c : Bool) × (round es (lost p d) ≡ lost q c) × (rank q ≤ rank p - 1)
round_ranks es p d =
    let (q, c, h, k) = run-lost es p d in
    let (r, b, i, l) = round_lost q c in (r, b, rw h i, omega arith)

rank_zero : (p : Phase) → rank p ≤ 0 → p ≡ ended
unfolding rank
rank_zero looping h = absurd (omega arith)
rank_zero (selecting true) h = absurd (omega arith)
rank_zero (selecting false) h = absurd (omega arith)
rank_zero cleaning h = absurd (omega arith)
rank_zero ended h = refl

rank_le : (p : Phase) → rank p ≤ 3
unfolding rank
rank_le looping = omega arith
rank_le (selecting true) = omega arith
rank_le (selecting false) = omega arith
rank_le cleaning = omega arith
rank_le ended = omega arith

three_rounds_end :
    (es fs gs : List Event) (p : Phase) (d : Bool)
    → (round gs (round fs (round es (lost p d)))).phase ≡ ended
three_rounds_end es fs gs p d =
    let (q, c, h, k) = round_ranks es p d in
    let (r, b, i, l) = round_ranks fs q c in
    let (s, a, j, m) = round_ranks gs r b in rw (h, i, j) (rank_zero s (omega (arith, rank_le p)))

-- The task is in its loop, and its future was not told.
may_end : Phase → Bool
may_end looping = false
may_end (selecting told) = told
may_end cleaning = false
may_end ended = true

unfoldable pub IsKept : World → Type 0
unfolding may_end
IsKept w = (w.builders ≤ w.limiters) × ((may_end w.phase ≡ false) ⊎ (w.builders ≡ 0))

abbrev world : Phase → Bool → ℕ → ℕ → World
world p d b l = record { phase = p; due = d; builders = b; limiters = l }

task-IsKept :
    (p : Phase) (d : Bool) (b l : ℕ) → IsKept (world p d b l) → IsKept (task (world p d b l))
unfolding IsKept may_end task
task-IsKept looping d b l (k, m) = ground arith
task-IsKept (selecting true) d b l (k, m) = ground arith
task-IsKept (selecting false) d b l (k, m) = ground arith
task-IsKept cleaning d b l (k, m) = ground arith
task-IsKept ended d b l (k, m) = ground arith

step-IsKept : (e : Event) (w : World) → IsKept w → IsKept (step e w)
unfolding IsKept may_end step notified
step-IsKept tick w h = h
step-IsKept clone w (k, m) = ground arith
step-IsKept drop_builder w (k, m) = ground arith
step-IsKept drop_limiter w (k, m) = ground arith
step-IsKept turn w h = task-IsKept w.phase w.due w.builders w.limiters h

run-IsKept : (es : List Event) (w : World) → IsKept w → IsKept (run es w)
unfolding run
run-IsKept [] w h = h
run-IsKept (e ∷ es) w h = run-IsKept es (step e w) (step-IsKept e w h)

start-IsKept : IsKept start
unfolding IsKept start may_end
start-IsKept = (omega arith, inl refl)

-- The task ends only when the builder is gone, so after the last layer began to be dropped.
pub run-ended : (es : List Event) → (run es start).phase ≡ ended → (run es start).builders ≡ 0
unfolding IsKept may_end
run-ended es h = elim (run-IsKept es start start-IsKept).1 [
  | inl m ↦ absurd (let n : true ≡ false = rw h at m in cc)
  | inr z ↦ z
]

world_lost : (w : World) → w.builders ≤ w.limiters → w.limiters ≡ 0 → w ≡ lost w.phase w.due
world_lost w k h = let b : w.builders ≡ 0 = omega arith in ap₂ (world w.phase w.due) b h

-- In any interleaving from `build`, once all layers are dropped, the collecting task has ended
-- after three more of its turns that each directly follow a tick, whatever happens between them,
-- also if the builder's notification came while the task was not waiting for it.
pub dropped_layers_end :
    (es fs gs hs : List Event)
    → (run es start).limiters ≡ 0
    → (round hs (round gs (round fs (run es start)))).phase ≡ ended
unfolding IsKept
dropped_layers_end es fs gs hs h =
    let w = run es start in
    rw (world_lost w (run-IsKept es start start-IsKept).0 h)
      (three_rounds_end fs gs hs w.phase w.due)
