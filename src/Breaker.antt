-- ===== src/Breaker.antt =====
-- `CircuitBreaker` of api/feature_store/routes.py. Every method holds the lock from its first line
-- to its last, so a run of threads is a list of whole calls. `time.time()` is an argument, in
-- any unit; `now - last >= timeout` is written `last + timeout <= now`, which is the same on numbers.
pub mod Counting
pub mod Refusal
pub mod Diagram
use paystream.Base.{ℕ, ◌+◌, Bool, true, false, List, [], ◌∷◌, leb, if◌then◌else◌}

pub data State : Type 0 where
  closed open_ half_open : State

pub record Breaker : Type 0 where
  pub state : State
  pub failure_count : ℕ
  pub failure_threshold : ℕ
  pub recovery_timeout : ℕ
  pub last_failure_time : ℕ

unfoldable pub init : ℕ → ℕ → Breaker
init failure_threshold recovery_timeout = record {
  state = closed;
  failure_count = 0;
  failure_threshold = failure_threshold;
  recovery_timeout = recovery_timeout;
  last_failure_time = 0;
}

-- The `if` chain of `can_execute`, on the state.
admit : State → Breaker → ℕ → Breaker × Bool
admit closed cb now = (cb, true)
admit open_ cb now =
    if leb (cb.last_failure_time + cb.recovery_timeout) now
    then (record cb { state = half_open }, true)
    else (cb, false)
admit half_open cb now = (cb, true)

unfoldable pub can_execute : Breaker → ℕ → Breaker × Bool
unfolding admit
can_execute cb now = admit cb.state cb now

unfoldable pub record_success : Breaker → Breaker
record_success cb = record cb { state = closed; failure_count = 0 }

unfoldable pub record_failure : Breaker → ℕ → Breaker
record_failure cb now =
    let count = cb.failure_count + 1 in
    let failed = record cb { failure_count = count; last_failure_time = now } in
    if leb cb.failure_threshold count then record failed { state = open_ } else failed

-- One call of a thread, with the time that it reads.
pub data Call : Type 0 where
  asks : ℕ → Call
  succeeds : Call
  fails : ℕ → Call

unfoldable pub step : Breaker → Call → Breaker
unfolding can_execute record_success record_failure
step cb (asks now) = (can_execute cb now).0
step cb succeeds = record_success cb
step cb (fails now) = record_failure cb now

unfoldable pub run : Breaker → List Call → Breaker
run cb [] = cb
run cb (c ∷ cs) = run (step cb c) cs
