-- ===== src/RateLimit/Collector.antt =====
-- layers/rate_limit/mod.rs: the task that `build` spawns for a `GCInterval::Time`, as atomic steps
-- between it and the drops and clones of layers. A layer holds the builder and the limiter, and drops
-- them in this order; a clone borrows a layer that is there, so it is one step. Ticks that were missed
-- come as later ones.
use ftl.Prelude.{ℕ, zero, suc, ◌-◌, ◌==◌, Bool, true, false, List, [], ◌∷◌, if◌then◌else◌}
pub mod Ends

-- Where the task is: at the head of the loop, in `select!` with a future of `notify` that was told or
-- not, in `clean`, or ended.
pub data Phase : Type 0 where
  looping : Phase
  selecting : Bool → Phase
  cleaning ended : Phase

pub record World : Type 0 where
  pub phase : Phase
  pub due : Bool
  pub builders : ℕ
  pub limiters : ℕ

pub data Event : Type 0 where
  tick turn clone drop_builder drop_limiter : Event

-- `build`, with one layer.
unfoldable pub start : World
start = record { phase = looping; due = true; builders = 1; limiters = 1 }

-- `notify_waiters` reaches the future that is there.
unfoldable pub notified : Phase → Phase
notified (selecting told) = selecting true
notified p = p

-- The limiter's strong count, less the task's own, is looked at after `clean`.
unfoldable pub task : World → World
task w = elim w.phase [
  | looping ↦ record w { phase = selecting false }
  | selecting told ↦
      if told
      then record w { phase = ended }
      else if w.due
      then record w { phase = cleaning; due = false }
      else w
  | cleaning ↦ if w.limiters == 0 then record w { phase = ended } else record w { phase = looping }
  | ended ↦ w
]

unfoldable pub step : Event → World → World
unfolding task notified
step tick w = record w { due = true }
step turn w = task w
step clone w =
    if w.builders == 0 then w else record w { builders = suc w.builders; limiters = suc w.limiters }
step drop_builder w =
    if w.builders == 0
    then w
    else if w.builders == 1
    then record w { builders = 0; phase = notified w.phase }
    else record w { builders = w.builders - 1 }
step drop_limiter w = if w.limiters == w.builders then w else record w { limiters = w.limiters - 1 }

unfoldable pub run : List Event → World → World
unfolding step
run [] w = w
run (e ∷ es) w = run es (step e w)
