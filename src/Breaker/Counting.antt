-- ===== src/Breaker/Counting.antt =====
-- The breaker against a specification that only counts: its state is decided by the failures since
-- the last success.
use paystream.Base.{ℕ, ◌+◌, ◌<◌, ◌≡◌, ◌↔◌, List, [], ◌∷◌, arith}
use paystream.Breaker.{closed, Breaker, init, Call, asks, succeeds, fails, step, run}

-- The failures of a history since its last success, `n` of them before it began.
abbrev pub failures_from : ℕ → List Call → ℕ
failures_from n [] = n
failures_from n (asks now ∷ cs) = failures_from n cs
failures_from n (succeeds ∷ cs) = failures_from 0 cs
failures_from n (fails now ∷ cs) = failures_from (n + 1) cs

-- When the last failure happened, `t` if there is none.
abbrev pub last_failure_from : ℕ → List Call → ℕ
last_failure_from t [] = t
last_failure_from t (asks now ∷ cs) = last_failure_from t cs
last_failure_from t (succeeds ∷ cs) = last_failure_from t cs
last_failure_from t (fails now ∷ cs) = last_failure_from now cs

-- What the counters mean.
pub record Counts (cb : Breaker) (threshold timeout failures last : ℕ) : Type 0 where
  pub threshold_kept : cb.failure_threshold ≡ threshold
  pub timeout_kept : cb.recovery_timeout ≡ timeout
  pub count_exact : cb.failure_count ≡ failures
  pub last_exact : cb.last_failure_time ≡ last
  pub closed_iff : (cb.state ≡ closed) ↔ (failures < threshold)

module _ {cb : Breaker} {threshold timeout failures last : ℕ} where
  step_asks :
      (now : ℕ)
      → Counts cb threshold timeout failures last
      → Counts (step cb (asks now)) threshold timeout failures last
  unfolding step
  step_asks now h = ground arith

  step_succeeds :
      0 < threshold
      → Counts cb threshold timeout failures last
      → Counts (step cb succeeds) threshold timeout 0 last
  unfolding step
  step_succeeds p h = ground arith

  step-fails :
      (now : ℕ)
      → Counts cb threshold timeout failures last
      → Counts (step cb (fails now)) threshold timeout (failures + 1) now
  unfolding step
  step-fails now h = ground arith

run-Counts :
    (cs : List Call) {cb : Breaker} {threshold timeout failures last : ℕ}
    → 0 < threshold
    → Counts cb threshold timeout failures last
    → Counts (run cb cs) threshold timeout (failures_from failures cs) (last_failure_from last cs)
unfolding run
run-Counts [] p h = h
run-Counts (asks now ∷ cs) p h = run-Counts cs p (step_asks now h)
run-Counts (succeeds ∷ cs) p h = run-Counts cs p (step_succeeds p h)
run-Counts (fails now ∷ cs) p h = run-Counts cs p (step-fails now h)

-- After any calls of any threads, from a new breaker with a positive threshold: the count is the
-- number of failures since the last success, the time is that of the last failure, and the breaker
-- is closed exactly while the count is below the threshold.
pub run-init-Counts :
    (threshold timeout : ℕ) (cs : List Call)
    → 0 < threshold
    → Counts
        (run (init threshold timeout) cs)
        threshold
        timeout
        (failures_from 0 cs)
        (last_failure_from 0 cs)
unfolding init
run-init-Counts threshold timeout cs p =
    run-Counts cs {cb = init threshold timeout} {threshold = threshold} {timeout = timeout}
      {failures = 0} {last = 0} p (ground arith)
