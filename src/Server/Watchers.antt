-- ===== src/Server/Watchers.antt =====
-- serve/mod.rs: `Handle::conn_count` against the watchers that live.
use ftl.Prelude.{ℕ, ◌+◌, ◌≡◌, List, [], ◌∷◌, arith}
use ftl.Server.{
  World, Event, poll, pend, incoming, accepted, refused, begin, finish, obey, look, stop, store,
  notify, kill, wait, set_shutdown_timeout, elapse, step, run, start,
}

-- The futures in `accepting`, and the tasks of connections that have not dropped their watchers.
unfoldable pub watchers : World → ℕ
watchers w = w.accepting + w.spawned + w.running + w.killed

step-watchers :
    (w : World) (e : Event)
    → w.conn_count ≡ watchers w
    → (step w e).conn_count ≡ watchers (step w e)
unfolding step watchers
step-watchers w poll h = ground arith
step-watchers w pend h = ground arith
step-watchers w incoming h = ground arith
step-watchers w accepted h = ground arith
step-watchers w refused h = ground arith
step-watchers w begin h = ground arith
step-watchers w finish h = ground arith
step-watchers w obey h = ground arith
step-watchers w look h = ground arith
step-watchers w stop h = ground arith
step-watchers w store h = ground arith
step-watchers w notify h = ground arith
step-watchers w kill h = ground arith
step-watchers w wait h = ground arith
step-watchers w (set_shutdown_timeout d) h = ground arith
step-watchers w (elapse n) h = ground arith

run-watchers :
    (w : World) (es : List Event)
    → w.conn_count ≡ watchers w
    → (run w es).conn_count ≡ watchers (run w es)
unfolding run
run-watchers w [] h = h
run-watchers w (e ∷ es) h = run-watchers (step w e) es (step-watchers w e h)

-- In any interleaving from a new server, the connection count is the number of futures in
-- `accepting` plus the number of connection tasks that have not yet dropped their watchers.
pub conn_count-watchers : (es : List Event) → (run start es).conn_count ≡ watchers (run start es)
conn_count-watchers es = run-watchers start es (unfold watchers start in omega arith)
