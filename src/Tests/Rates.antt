-- ===== src/Tests/Rates.antt =====
-- Runs of the rate limiter: layers/rate_limit/gcra.rs.
use ftl.Prelude.{
  ℕ, ◌+◌, ◌*◌, ◌≤◌, ◌≡◌, refl, some, List, [], ◌∷◌, err, true, false, leb, length, arith,
}
use native.Mathlib.Decide.{ℕ_discrete}
use ftl.Table.{Table, function_table}
use ftl.Gcra.{Quota, first, decide, admitted}
use ftl.Gcra as Cell
use ftl.Gcra.Burst.{Fits}
use ftl.Gcra.Threads.{Request, Event, load, attempt, run, start, step, replay}
use ftl.Gcra.Threads.Linear.{run-linear}
use ftl.Gcra.Rate.{run_rate}
use ftl.RateLimit.Collector as Collector
use ftl.RateLimit.Collector.{drop_builder, drop_limiter, turn, ended}
use ftl.RateLimit.Collector.Ends.{round, dropped_layers_end}
use ftl.Limiter.{
  RateLimiter, Limiter, gc, req, req_peek_key, penalize, clean, into_response, nanos_per_sec,
}
use ftl.Limiter as Limits
use ftl.Limiter.Rate as Rate
use ftl.Limiter.Rate.{ask, sweep}
use ftl.Limiter.Rate.Bound.{admitted-rate}
use ftl.Limiter.Gc.{verdict, gc-verdict}
use ftl.Limiter.Reply.{retry_after_early}

ran : Unit {0}
unfolding run start step replay decide Cell.req first admitted req gc penalize Limits.new
    into_response ℕ_discrete
ran = tt

-- Two requests at once, and one more every 10.
abbrev two : Quota
two = record { tau = 20; t = 10 }

abbrev at_100 : Request
at_100 = record { quota = two; now = 100 }

-- Two threads load the same value; the second's exchange fails twice, then it is granted too.
abbrev two_threads : List Event
two_threads =
    load 0 at_100
    ∷ load 1 at_100
    ∷ attempt 0 false
    ∷ attempt 1 false
    ∷ attempt 1 true
    ∷ attempt 1 false
    ∷ []

two_threads-run :
    ((run (start 100) two_threads).cell ≡ 120) × (length (run (start 100) two_threads).granted ≡ 2)
unfolding ran
two_threads-run = (refl, refl)

run-linear_example :
    replay 100 (run (start 100) two_threads).granted ≡ some (run (start 100) two_threads).cell
run-linear_example = run-linear 100 two_threads

-- A third thread is told to wait.
abbrev third : List Event
third = load 2 at_100 ∷ attempt 2 false ∷ []

run_rate_example : 100 + length (run (start 100) two_threads).granted * 10 ≤ 100 + 20 + 10
unfolding ran
run_rate_example =
    run_rate two 100 100 two_threads (omega arith) (omega arith)
      ((refl, omega arith), ((refl, omega arith), tt))

two-Fits : Fits two 2 100
two-Fits = record { tau = refl; pos = omega arith; room = omega arith }

abbrev cells : Table ℕ ℕ
cells = function_table ℕ_discrete

-- The client 7 has a cell at 50, and 8 one at 300.
abbrev clients : Limiter cells
clients = record {
  start = 0;
  gc_interval = 4;
  last_gc = 8;
  limits = cells.insert 7 50 (cells.insert 8 300 cells.empty);
}

gc-verdict_test :
    verdict cells (req cells 7 two 100 (gc cells 60 clients))
    ≡ verdict cells (req cells 7 two 100 clients)
unfolding ran
gc-verdict_test = gc-verdict cells 7 two 100 60 clients (λ e. omega arith) (omega arith)

-- The request of 9 collects the cell of 7.
abbrev after_9 : Limiter cells
after_9 = record {
  start = 0;
  gc_interval = 4;
  last_gc = 9;
  limits = cells.insert 9 120 (cells.retain (λ v. leb 100 v) clients.limits);
}

-- A wait of a second and a half, announced as one second.
abbrev slow : Quota
slow = record { tau = 1; t = 1 }

retry_after_early_test :
    decide 1_500_000_001 (0 + (into_response 1_500_000_000).retry_after * nanos_per_sec) slow
    ≡ err 500_000_000
unfolding ran
retry_after_early_test =
    retry_after_early 1_500_000_001 0 1_500_000_000 slow refl (omega arith) (λ e. omega arith)

-- The only layer is dropped while the task cleans, so the builder's notification is lost.
abbrev dropped : List Collector.Event
dropped = turn ∷ turn ∷ drop_builder ∷ turn ∷ turn ∷ drop_limiter ∷ []

all_dropped : (Collector.run dropped Collector.start).limiters ≡ 0
unfolding Collector.run Collector.start
all_dropped = refl

dropped_layers_end_example :
    (round [] (round [] (round [] (Collector.run dropped Collector.start)))).phase ≡ ended
dropped_layers_end_example = dropped_layers_end dropped [] [] [] all_dropped

-- The client 8 asks five times in 30 ns, and is refused once, with the client 7 and a cleaning in
-- between.
abbrev asked : List (Rate.Event ℕ)
asked =
    ask 8 two 300
    ∷ ask 7 two 300
    ∷ ask 8 two 300
    ∷ ask 8 two 300
    ∷ ask 8 two 300
    ∷ sweep 320
    ∷ ask 8 two 330
    ∷ []

asked_test : Rate.admitted cells ℕ_discrete 8 asked clients ≡ some 4
unfolding ran clean
asked_test = refl

asked-Timed : Rate.Timed 8 two 0 300 330 asked
asked-Timed = (
  omega arith,
  λ e. refl,
  (
    omega arith,
    λ e. absurd (omega arith),
    (
      omega arith,
      λ e. refl,
      (
        omega arith,
        λ e. refl,
        (omega arith, λ e. refl, (omega arith, (omega arith, λ e. refl, omega arith))),
      ),
    ),
  ),
)

admitted-rate_example :
    (n : ℕ) × (Rate.admitted cells ℕ_discrete 8 asked clients ≡ some n)
    × (300 + n * 10 ≤ 330 + 20 + 10)
admitted-rate_example =
    admitted-rate cells ℕ_discrete 8 two 300 330 asked clients (λ e. omega arith) (omega arith)
      asked-Timed
