-- ===== src/Gcra/Threads.antt =====
-- `Gcra::req` under any interleaving of threads: the load, and the `compare_exchange_weak` loop.
use ftl.Prelude.{
  ℕ, ◌+◌, ◌≤◌, Bool, true, false, not, ◌&&◌, Option, none, some, List, [], ◌∷◌, Result, ok, err,
  ◌==◌, if◌then◌else◌, ◌>>=◌,
}
use ftl.Gcra.{Quota, decide}
pub mod Linear

pub record Request : Type 0 where
  pub quota : Quota
  pub now : ℕ

-- Where a call of `req` stands: not begun, in the loop with the value `prev` that it read last, or
-- returned.
pub data Phase : Type 0 where
  idle : Phase
  loaded : ℕ → Request → Phase
  returned : Request → Result (Unit {0}) ℕ → Phase

-- The atomic cell, every thread's call, and the requests granted so far, the last one first.
pub record World : Type 0 where
  pub cell : ℕ
  pub phase : ℕ → Phase
  pub granted : List Request

-- A thread begins a call by its load, or makes one turn of the loop; the weak exchange may fail
-- although the cell holds `prev`.
pub data Event : Type 0 where
  load : ℕ → Request → Event
  attempt : ℕ → Bool → Event

abbrev pub at_thread : ℕ → Phase → (ℕ → Phase) → ℕ → Phase
at_thread i p phase j = if i == j then p else phase j

exchange : World → ℕ → ℕ → Request → Bool → Result ℕ ℕ → World
exchange w i prev r spurious (err e) = record w { phase = at_thread i (returned r (err e)) w.phase }
exchange w i prev r spurious (ok next) =
    if w.cell == prev && not spurious
    then record {
      cell = next;
      phase = at_thread i (returned r (ok tt)) w.phase;
      granted = r ∷ w.granted;
    }
    else record w { phase = at_thread i (loaded w.cell r) w.phase }

turn : World → ℕ → Bool → Phase → World
unfolding exchange
turn w i spurious idle = w
turn w i spurious (loaded prev r) = exchange w i prev r spurious (decide prev r.now r.quota)
turn w i spurious (returned r v) = w

unfoldable pub step : World → Event → World
unfolding turn
step w (load i r) = record w { phase = at_thread i (loaded w.cell r) w.phase }
step w (attempt i spurious) = turn w i spurious (w.phase i)

unfoldable pub run : World → List Event → World
run w [] = w
run w (e ∷ es) = run (step w e) es

unfoldable pub start : ℕ → World
start cell = record { cell = cell; phase = λ _. idle; granted = [] }

-- The specification: the granted requests served one after the other.
abbrev pub granted_cell : Result ℕ ℕ → Option ℕ
granted_cell (ok next) = some next
granted_cell (err _) = none

unfoldable pub replay : ℕ → List Request → Option ℕ
replay cell [] = some cell
replay cell (r ∷ rs) = replay cell rs >>= λ c. granted_cell (decide c r.now r.quota)
