-- ===== src/Server.antt =====
-- serve/mod.rs: `Handle`, `NotifyOnce`, `Watcher` and `Server::serve`, as atomic steps of the
-- serving task, of the connections' tasks and of the callers of the handle, in any interleaving.
-- Connection tasks are counted, not named. tokio's `Notify` wakes by `notify_waiters` the futures
-- that were created before, and keeps nothing for later ones.
use ftl.Prelude.{
  ℕ, zero, suc, ◌+◌, ◌-◌, Bool, true, false, Option, none, some, List, [], ◌∷◌, ◌==◌, if◌then◌else◌,
}
pub mod Watchers
pub mod Stopping
pub mod Hangs
pub mod Tasks
pub mod Throttle
pub mod Setup

-- Where the serving task stands.
pub data Phase : Type 0 where
  -- `shutdown` is not polled yet; its `Notified` is created and the flag is not loaded
  opening created : Phase
  -- at the top of the loop; in `select_biased!`, with `shutdown` found pending
  polling selecting : Phase
  -- in the drop of a refused connection's watcher, the last: to load the flag, to notify
  loading killing : Phase
  -- in `wait_internal`: to load the count, to kill as it is 0, to read the deadline, to create the
  -- `Notified` and the sleep, and at the select
  counting closing deciding : Phase
  arming waiting : Option ℕ → Phase
  returned : Phase

pub record World : Type 0 where
  pub phase : Phase
  -- `HandleInner`: the count, `shutdown.notified`, the deadline
  pub conn_count : ℕ
  pub notified : Bool
  pub deadline : Option ℕ
  -- callers of `shutdown` between the store and `notify_waiters`
  pub signalling : ℕ
  -- whether the serving task's futures of `shutdown` and of `kill` were notified
  pub signalled : Bool
  pub woken : Bool
  -- futures in `accepting`, each with its watcher
  pub accepting : ℕ
  -- connection tasks: spawned, with `kill` created, and with `kill` notified
  pub spawned : ℕ
  pub running : ℕ
  pub killed : ℕ
  -- tasks in the drop of the last watcher: to load the flag, to notify
  pub leaving : ℕ
  pub ending : ℕ
  -- futures of `Handle::wait`: pending, and notified
  pub waiters : ℕ
  pub released : ℕ

pub data Event : Type 0 where
  -- the serving task: a step of its own, and what `select_biased!` finds ready (or nothing)
  poll pend incoming accepted refused : Event
  -- a connection task: creates `kill`, ends as its connection ends, ends as it is killed
  begin finish obey : Event
  -- the rest of the drop of the last watcher
  look stop : Event
  -- the handle: the two steps of `shutdown`, `kill`, `wait`, `set_shutdown_timeout`
  store notify kill wait : Event
  set_shutdown_timeout : Option ℕ → Event
  -- time goes by
  elapse : ℕ → Event

is_waiting : Phase → Bool
is_waiting (waiting d) = true
is_waiting p = false

-- `kill.notify_waiters()`
notify_kill : World → World
unfolding is_waiting
notify_kill w = record w {
  woken = if is_waiting w.phase then true else w.woken;
  running = 0;
  killed = w.killed + w.running;
  waiters = 0;
  released = w.released + w.waiters;
}

-- The `Notified` of `NotifyOnce::notified` is created before the flag is loaded.
is_listening : Phase → Bool
is_listening opening = false
is_listening p = true

notify_shutdown : World → World
unfolding is_listening
notify_shutdown w = record w {
  signalling = w.signalling - 1;
  signalled = if is_listening w.phase then true else w.signalled;
}

-- One step of the serving task on its own.
poll_main : Phase → World → World
unfolding notify_kill
poll_main opening w = record w { phase = created }
poll_main created w = record w { phase = if w.notified then counting else polling }
poll_main polling w = record w { phase = if w.signalled then counting else selecting }
poll_main selecting w = w
poll_main loading w = record w { phase = if w.notified then killing else polling }
poll_main killing w = record (notify_kill w) { phase = polling }
poll_main counting w = record w { phase = if w.conn_count == 0 then closing else deciding }
poll_main closing w = record (notify_kill w) { phase = returned }
poll_main deciding w = record w { phase = arming w.deadline }
poll_main (arming d) w = record w { phase = waiting d; woken = false }
poll_main (waiting none) w = record w { phase = if w.woken then returned else waiting none }
poll_main (waiting (some zero)) w = record w { phase = if w.woken then returned else closing }
poll_main (waiting (some (suc d))) w = record w {
  phase = if w.woken then returned else waiting (some (suc d));
}
poll_main returned w = w

-- A branch of `select_biased!` is taken only there.
select : Phase → World → World → World
select selecting w w' = w'
select p w w' = w

-- `Handle::watcher`, and the future that is pushed with it.
accept : World → World
accept w = record w { conn_count = w.conn_count + 1; accepting = w.accepting + 1; phase = polling }

-- `Ok((stream, service))`: the task is spawned.
spawn : World → World
spawn w = record w { accepting = w.accepting - 1; spawned = w.spawned + 1; phase = polling }

-- `_ => continue`: the watcher is dropped.
refuse : World → World
refuse w = record w {
  accepting = w.accepting - 1;
  conn_count = w.conn_count - 1;
  phase = if w.conn_count == 1 then loading else polling;
}

-- `Watcher::drop` in a connection's task.
drop : World → World
drop w = record w {
  conn_count = w.conn_count - 1;
  leaving = if w.conn_count == 1 then w.leaving + 1 else w.leaving;
}

tick : ℕ → Phase → Phase
tick n (waiting (some d)) = waiting (some (d - n))
tick n p = p

unfoldable pub step : World → Event → World
unfolding notify_kill notify_shutdown poll_main select accept spawn refuse drop tick is_waiting
    is_listening
step w poll = poll_main w.phase w
step w pend = select w.phase w (record w { phase = polling })
step w incoming = select w.phase w (accept w)
step w accepted = if w.accepting == 0 then w else select w.phase w (spawn w)
step w refused = if w.accepting == 0 then w else select w.phase w (refuse w)
step w begin =
    if w.spawned == 0 then w else record w { spawned = w.spawned - 1; running = w.running + 1 }
step w finish = if w.running == 0 then w else drop (record w { running = w.running - 1 })
step w obey = if w.killed == 0 then w else drop (record w { killed = w.killed - 1 })
step w look = if w.leaving == 0 then w else record w {
  leaving = w.leaving - 1;
  ending = if w.notified then w.ending + 1 else w.ending;
}
step w stop = if w.ending == 0 then w else notify_kill (record w { ending = w.ending - 1 })
step w store = record w { notified = true; signalling = w.signalling + 1 }
step w notify = if w.signalling == 0 then w else notify_shutdown w
step w kill = notify_kill w
step w wait = record w { waiters = w.waiters + 1 }
step w (set_shutdown_timeout d) = record w { deadline = d }
step w (elapse n) = record w { phase = tick n w.phase }

unfoldable pub run : World → List Event → World
run w [] = w
run w (e ∷ es) = run (step w e) es

-- `Server::bind` with `Handle::default()`.
unfoldable pub start : World
start = record {
  phase = opening;
  conn_count = 0;
  notified = false;
  deadline = none;
  signalling = 0;
  signalled = false;
  woken = false;
  accepting = 0;
  spawned = 0;
  running = 0;
  killed = 0;
  leaving = 0;
  ending = 0;
  waiters = 0;
  released = 0;
}
