-- ===== src/Tests/Servers.antt =====
-- Runs of serve/mod.rs.
use ftl.Prelude.{ℕ, ◌≡◌, refl, false, some, none, List, [], ◌∷◌, ◌++◌, arith}
use ftl.Server.{
  Event, waiting, returned, poll, incoming, accepted, begin, finish, look, stop, store, notify,
  kill, obey, elapse, set_shutdown_timeout, step, run, start,
}
use ftl.Server.Watchers.{watchers, conn_count-watchers}
use ftl.Server.Stopping.{
  is_past, polls, serves_until_shutdown, shutdown_idle_returns, shutdown_deadline_returns,
}
use ftl.Server.Hangs.{last_leaves, lost_kill, abandoned_accepts}
use ftl.Server.Tasks.{task, idle_turns, shutting_down}
use ftl.Server.Throttle.{failed, ready, poll_all, poll_next}

ran : Unit {0}
unfolding run step start watchers task idle_turns poll_all poll_next
ran = tt

-- The serving task comes to its select; a connection is then accepted, and its task runs.
abbrev up : List Event
up = poll ∷ poll ∷ poll ∷ []

abbrev serving : List Event
serving = up ++ incoming ∷ poll ∷ accepted ∷ begin ∷ []

abbrev shut : List Event
shut = store ∷ notify ∷ []

serving_test : ((run start serving).conn_count ≡ 1) × ((run start serving).running ≡ 1)
unfolding ran
serving_test = (refl, refl)

-- A connection that ends in time lets the server return.
graceful_test :
    (run start
      (serving ++ (shut ++ poll ∷ poll ∷ poll ∷ poll ∷ finish ∷ look ∷ stop ∷ poll ∷ []))).phase
    ≡ returned
unfolding ran
graceful_test = refl

conn_count-watchers_example :
    (run start (serving ++ kill ∷ obey ∷ [])).conn_count
    ≡ watchers (run start (serving ++ kill ∷ obey ∷ []))
conn_count-watchers_example = conn_count-watchers (serving ++ kill ∷ obey ∷ [])

serves_until_shutdown_example :
    is_past (run start (serving ++ kill ∷ obey ∷ poll ∷ [])).phase ≡ false
serves_until_shutdown_example =
    serves_until_shutdown (serving ++ kill ∷ obey ∷ poll ∷ [])
      (tt, (tt, (tt, (tt, (tt, (tt, (tt, (tt, (tt, (tt, tt))))))))))

shutdown_idle_returns_example : (run start ((up ++ shut) ++ polls)).phase ≡ returned
unfolding ran
shutdown_idle_returns_example = shutdown_idle_returns (up ++ shut) refl refl refl refl

abbrev limited : List Event
limited = set_shutdown_timeout (some 5) ∷ serving ++ shut

abbrev later : List Event
later = elapse 3 ∷ incoming ∷ elapse 2 ∷ []

shutdown_deadline_returns_example :
    (run start (limited ++ (polls ++ (later ++ poll ∷ poll ∷ [])))).phase ≡ returned
unfolding ran
shutdown_deadline_returns_example =
    shutdown_deadline_returns limited later 5 refl refl refl refl (omega arith)

lost_kill_example :
    (run start (
      (serving ++ (shut ++ poll ∷ poll ∷ []))
      ++ (last_leaves ++ poll ∷ elapse 9 ∷ poll ∷ []))).phase
    ≡ waiting none
unfolding ran
lost_kill_example =
    lost_kill (serving ++ (shut ++ poll ∷ poll ∷ [])) (poll ∷ elapse 9 ∷ poll ∷ []) refl refl refl
      refl refl refl (tt, (tt, (tt, tt)))

abandoned_accepts_example :
    (run start
      ((up ++ incoming ∷ shut ++ poll ∷ poll ∷ poll ∷ poll ∷ []) ++ elapse 9 ∷ poll ∷ [])).phase
    ≡ waiting none
unfolding ran
abandoned_accepts_example =
    abandoned_accepts (up ++ incoming ∷ shut ++ poll ∷ poll ∷ poll ∷ poll ∷ [])
      (elapse 9 ∷ poll ∷ []) refl refl refl refl (omega arith) (tt, (tt, tt))

-- A task whose connection does not end turns again and again once the server shuts down.
spin_test :
    (task
      (record { polls = 0; graceful = 0; parks = 0; over = false })
      (shutting_down ∷ shutting_down ∷ shutting_down ∷ [])).parks
    ≡ 0
unfolding ran
spin_test = refl

throttle_test :
    (poll_all {A = ℕ} 0
      (record { until = none; failures = [] })
      ((1, failed) ∷ (20, failed) ∷ (40, failed) ∷ (1, ready 7) ∷ [])).failures
    ≡ 61 ∷ 1 ∷ []
unfolding ran
throttle_test = refl
