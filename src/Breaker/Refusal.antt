-- ===== src/Breaker/Refusal.antt =====
-- When the breaker lets a request through.
use paystream.Base.{ℕ, ◌+◌, ◌≤◌, ◌<◌, ◌≡◌, refl, ◌↔◌, List, [], ◌∷◌, map, arith, true, false, All}
use paystream.Breaker.{open_, half_open, Breaker, asks, can_execute, record_failure, step, run}

-- A request is refused exactly while the breaker is open and `recovery_timeout` has not passed since
-- the last failure.
pub refused_iff :
    (cb : Breaker) (now : ℕ)
    → ((can_execute cb now).1 ≡ false)
      ↔ ((cb.state ≡ open_) × (now < cb.last_failure_time + cb.recovery_timeout))
unfolding can_execute
refused_iff cb now = (λ h. ground arith, λ h. ground arith)

-- Requests that ask within the window leave an open breaker exactly as it is, so all of them are
-- refused.
pub open_window :
    (cb : Breaker) (times : List ℕ)
    → cb.state ≡ open_
    → All (λ t. t < cb.last_failure_time + cb.recovery_timeout) times
    → run cb (map asks times) ≡ cb
unfolding run step
open_window cb [] o w = refl
open_window cb (t ∷ times) o w = ground (arith, open_window cb times o w.1)

-- A failure of the probe in the half-open state opens the breaker again, for a whole new window.
pub probe_failure_reopens :
    (cb : Breaker) (now later : ℕ)
    → cb.failure_threshold ≤ cb.failure_count
    → let reopened = record_failure cb now in
      (reopened.state ≡ open_)
      × (((can_execute reopened later).1 ≡ true) ↔ (now + cb.recovery_timeout ≤ later))
unfolding can_execute record_failure
probe_failure_reopens cb now later h = (ground arith, (λ e. ground arith, λ e. ground arith))

-- Half-open is not limited to one probe: until an outcome is recorded every request is let through
-- and the breaker does not change.
pub half_open_unlimited :
    (cb : Breaker) (times : List ℕ)
    → cb.state ≡ half_open
    → (run cb (map asks times) ≡ cb) × All (λ t. (can_execute cb t).1 ≡ true) times
unfolding run step can_execute
half_open_unlimited cb [] h = (refl, tt)
half_open_unlimited cb (t ∷ times) h = ground (arith, half_open_unlimited cb times h)
