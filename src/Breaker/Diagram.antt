-- ===== src/Breaker/Diagram.antt =====
-- The state diagram of the breaker, with counters and times left out.
use paystream.Base.{ℕ, ◌<◌, List, arith}
use paystream.Breaker.{
  State, closed, open_, half_open, Breaker, init, Call, asks, succeeds, fails, step, run,
}
use paystream.Breaker.Counting.{Counts, run-init-Counts}

-- `Edge s c t`: the call `c` may take the breaker from `s` to `t`.
pub data Edge : State → Call → State → Type 0 where
  pass : {now : ℕ} → Edge closed (asks now) closed
  refuse : {now : ℕ} → Edge open_ (asks now) open_
  probe : {now : ℕ} → Edge open_ (asks now) half_open
  admit : {now : ℕ} → Edge half_open (asks now) half_open
  recover : {s : State} → Edge s succeeds closed
  tolerate : {now : ℕ} → Edge closed (fails now) closed
  trip : {s : State} {now : ℕ} → Edge s (fails now) open_

ruleset edges = (pass, refuse, probe, admit, recover, tolerate, trip)

step-Edge :
    (cb : Breaker) (c : Call) {threshold timeout failures last : ℕ}
    → Counts cb threshold timeout failures last
    → Edge cb.state c (step cb c).state
unfolding step
step-Edge cb (asks now) h = grind (arith, edges)
step-Edge cb succeeds h = search edges
step-Edge cb (fails now) h = grind (arith, edges)

-- After any history, each further call follows an edge of the diagram: half-open is entered only
-- from open by a request, a failure never leaves it half-open, and only a success closes.
pub run-Edge :
    (threshold timeout : ℕ) (cs : List Call) (c : Call)
    → 0 < threshold
    → let cb = run (init threshold timeout) cs in Edge cb.state c (step cb c).state
run-Edge threshold timeout cs c p = step-Edge _ c (run-init-Counts threshold timeout cs p)
