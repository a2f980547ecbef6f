-- ===== src/Server/Tasks.antt =====
-- serve/mod.rs: the loop of a connection's task.
use ftl.Prelude.{ℕ, ◌+◌, ◌≡◌, Bool, true, false, List, [], ◌∷◌, if◌then◌else◌, arith}

-- What a turn of the loop finds: `kill`, the connection, and the flag of `shutdown`.
pub record Found : Type 0 where
  pub killed : Bool
  pub completed : Bool
  pub shutting : Bool

-- How a turn ends: `break`, `continue` after `graceful_shutdown`, or parked until it is woken.
pub data Turn : Type 0 where
  stopped again parked : Turn

-- A biased select; `shutdown_notified()` is made anew, and is ready at once if the flag is set.
unfoldable pub turn : Found → Turn
turn f =
    if f.killed
    then stopped
    else if f.completed
    then stopped
    else if f.shutting
    then again
    else parked

pub record Conn : Type 0 where
  -- how often the connection was polled and told to shut down, and how often the task parked
  pub polls : ℕ
  pub graceful : ℕ
  pub parks : ℕ
  pub over : Bool

-- The connection is polled unless the kill came first.
turned : Turn → Found → Conn → Conn
turned stopped f c = record c { polls = if f.killed then c.polls else c.polls + 1; over = true }
turned again f c = record c { polls = c.polls + 1; graceful = c.graceful + 1 }
turned parked f c = record c { polls = c.polls + 1; parks = c.parks + 1 }

-- The loop, over what its turns find.
unfoldable pub task : Conn → List Found → Conn
unfolding turn turned
task c [] = c
task c (f ∷ fs) = task (if c.over then c else turned (turn f) f c) fs

abbrev pub shutting_down : Found
shutting_down = record { killed = false; completed = false; shutting = true }

-- The turns in which neither the kill nor the connection is ready.
unfoldable pub idle_turns : List Bool → List Found
idle_turns [] = []
idle_turns (b ∷ bs) = record { killed = false; completed = false; shutting = b } ∷ idle_turns bs

unfoldable pub count_if : Bool → List Bool → ℕ
count_if b [] = 0
count_if true (c ∷ cs) = (if c then 1 else 0) + count_if true cs
count_if false (c ∷ cs) = (if c then 0 else 1) + count_if false cs

pub task-parks :
    (c : Conn) (bs : List Bool)
    → c.over ≡ false
    → ((task c (idle_turns bs)).over ≡ false)
      × ((task c (idle_turns bs)).parks ≡ c.parks + count_if false bs)
      × ((task c (idle_turns bs)).graceful ≡ c.graceful + count_if true bs)
unfolding task idle_turns count_if
task-parks c [] h = (h, omega arith, omega arith)
task-parks c (true ∷ bs) h =
    ground (arith, task-parks (record c { polls = c.polls + 1; graceful = c.graceful + 1 }) bs h)
task-parks c (false ∷ bs) h =
    ground (arith, task-parks (record c { polls = c.polls + 1; parks = c.parks + 1 }) bs h)
