-- ===== src/Server/Hangs.antt =====
-- serve/mod.rs: how `wait_internal` can wait for a kill that never comes.
use ftl.Prelude.{◌≤◌, ◌≡◌, ◌⊎◌, inr, true, false, none, List, [], ◌∷◌, ◌++◌, All, arith}
use ftl.Server.{
  World, Event, deciding, waiting, poll, pend, incoming, accepted, refused, begin, finish, obey,
  look, stop, store, notify, kill, wait, set_shutdown_timeout, elapse, step, run, start,
}
use ftl.Server.Watchers.{watchers, conn_count-watchers}
use ftl.Server.Stopping.{run-append, past_notified}

abbrev pub IsNotKill : Event → Type 0
IsNotKill kill = ⊥
IsNotKill e = Unit

-- The serving task waits with no deadline, and no task is left that would notify it: a future in
-- `accepting` holds a watcher that nobody drops, or there is no watcher at all.
record IsStuck (w : World) : Type 0 where
  waits : w.phase ≡ waiting none
  asleep : w.woken ≡ false
  counted : w.conn_count ≡ watchers w
  settled : (w.leaving ≡ 0) × (w.ending ≡ 0)
  held : (w.conn_count ≡ 0) ⊎ (1 ≤ w.accepting)

step-IsStuck : (w : World) (e : Event) → IsNotKill e → IsStuck w → IsStuck (step w e)
unfolding step watchers
step-IsStuck w poll n h = ground arith
step-IsStuck w pend n h = ground arith
step-IsStuck w incoming n h = ground arith
step-IsStuck w accepted n h = ground arith
step-IsStuck w refused n h = ground arith
step-IsStuck w begin n h = ground arith
step-IsStuck w finish n h = ground arith
step-IsStuck w obey n h = ground arith
step-IsStuck w look n h = ground arith
step-IsStuck w stop n h = ground arith
step-IsStuck w store n h = ground arith
step-IsStuck w notify n h = ground arith
step-IsStuck w kill n h = absurd n
step-IsStuck w wait n h = ground arith
step-IsStuck w (set_shutdown_timeout d) n h = ground arith
step-IsStuck w (elapse t) n h = ground arith

run-IsStuck : (w : World) (es : List Event) → All IsNotKill es → IsStuck w → IsStuck (run w es)
unfolding run
run-IsStuck w [] n h = h
run-IsStuck w (e ∷ es) n h = run-IsStuck (step w e) es n.1 (step-IsStuck w e n.0 h)

-- The last connection ends between the load of the count and the creation of the `Notified`.
abbrev pub last_leaves : List Event
last_leaves = finish ∷ look ∷ stop ∷ poll ∷ poll ∷ []

last_leaves-IsStuck :
    (w : World)
    → w.phase ≡ deciding
    → w.notified ≡ true
    → w.deadline ≡ none
    → w.conn_count ≡ watchers w
    → w.conn_count ≡ 1
    → w.running ≡ 1
    → w.leaving ≡ 0
    → w.ending ≡ 0
    → IsStuck (run w last_leaves)
unfolding run step watchers
last_leaves-IsStuck w p n d c o r l e = ground arith

-- If no deadline is set, and the last connection ends after `wait_internal` has loaded a count of
-- 1, that connection's task being the only one that runs and no other drop being under way, and
-- before the serving task creates its `Notified`, then `serve` never returns unless the handle's
-- `kill` is called: whatever else happens, the serving task stays at its select.
pub lost_kill :
    (es fs : List Event)
    → (run start es).phase ≡ deciding
    → (run start es).deadline ≡ none
    → (run start es).conn_count ≡ 1
    → (run start es).running ≡ 1
    → (run start es).leaving ≡ 0
    → (run start es).ending ≡ 0
    → All IsNotKill fs
    → (run start (es ++ (last_leaves ++ fs))).phase ≡ waiting none
lost_kill es fs p d o r l e n =
    let w = run start es in
    rw (run-append start es (last_leaves ++ fs), run-append w last_leaves fs)
      (run-IsStuck (run w last_leaves) fs n (
        last_leaves-IsStuck w p (past_notified es (rw p)) d (conn_count-watchers es) o r l e)).waits

-- If the serving task waits with no deadline and was not notified, no drop of a last watcher is
-- under way, and a future is left in `accepting`, then `serve` never returns unless the handle's
-- `kill` is called.
pub abandoned_accepts :
    (es fs : List Event)
    → (run start es).phase ≡ waiting none
    → (run start es).woken ≡ false
    → (run start es).leaving ≡ 0
    → (run start es).ending ≡ 0
    → 1 ≤ (run start es).accepting
    → All IsNotKill fs
    → (run start (es ++ fs)).phase ≡ waiting none
abandoned_accepts es fs p k l e a n =
    let w = run start es in
    rw (run-append start es fs)
      (run-IsStuck w fs n (record {
        waits = p;
        asleep = k;
        counted = conn_count-watchers es;
        settled = (l, e);
        held = inr a;
      })).waits
