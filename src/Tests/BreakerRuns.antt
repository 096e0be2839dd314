-- ===== src/Tests/BreakerRuns.antt =====
-- The breaker of api/feature_store/routes.py, with its threshold 3 and timeout 30.
use paystream.Base.{◌≡◌, refl, List, [], ◌∷◌, arith}
use paystream.Breaker.{
  Breaker, closed, open_, half_open, Call, asks, succeeds, fails, init, step, run,
}
use paystream.Breaker.Counting.{Counts, run-init-Counts}
use paystream.Breaker.Diagram.{Edge, run-Edge}

abbrev history : List Call
history = fails 1 ∷ succeeds ∷ fails 5 ∷ asks 6 ∷ fails 7 ∷ fails 9 ∷ asks 10 ∷ []

abbrev tripped : Breaker
tripped = record {
  state = open_;
  failure_count = 3;
  failure_threshold = 3;
  recovery_timeout = 30;
  last_failure_time = 9;
}

abbrev probing : Breaker
probing = record tripped { state = half_open }

run_trips : run (init 3 30) history ≡ tripped
unfolding run step init
run_trips = refl

run_recovers :
    (run (init 3 30) (fails 1 ∷ fails 2 ∷ fails 3 ∷ asks 33 ∷ succeeds ∷ [])).state ≡ closed
unfolding run step init
run_recovers = refl

run-init-Counts_example : Counts (run (init 3 30) history) 3 30 3 9
run-init-Counts_example = run-init-Counts 3 30 history (omega arith)

run-Edge_example :
    let cb = run (init 3 30) history in Edge cb.state (asks 40) (step cb (asks 40)).state
run-Edge_example = run-Edge 3 30 history (asks 40) (omega arith)
