-- ===== src/Tests/DriftRuns.antt =====
-- Runs of the monitor of the features' drift.
use paystream.Base.{◌≡◌, refl, Bool, true, String, List, [], ◌∷◌, map, Option, none}
use paystream.Base.Int.{pos}
use paystream.Base.Number.{Number, ratio, null, number}
use paystream.Base.Task.{ok, raised, type_error}
use paystream.Base.Trace.{Adds}
use paystream.DriftMonitor.{
  DriftMetric, Quartiles, Answers, feature_names, write_drift, write_all, detect_and_write_drift,
  metric,
}
use paystream.DriftMonitor.Blind.{Undrifted, detect_and_write_drift-Adds}

abbrev never : String → Option Number
never s = none

abbrev takes : List DriftMetric → DriftMetric → Bool
takes log w = true

abbrev quartiles : Quartiles
quartiles = record {
  q1 = number (ratio (pos 1) 0);
  q3 = number (ratio (pos 90) 0);
  med = number (ratio (pos 40) 0);
}

abbrev answers : Answers
answers = record { count = ok (12 ∷ []); stats = λ name. ok (quartiles ∷ []) }

-- One row for each feature, in order.
detect_run :
    detect_and_write_drift never takes answers []
    ≡ (ok tt, map (λ name. metric never takes name (ratio (pos 40) 0)) feature_names)
unfolding detect_and_write_drift write_all write_drift
detect_run = refl

empty_run :
    detect_and_write_drift never takes (record answers { count = ok (0 ∷ []) }) [] ≡ (ok tt, [])
unfolding detect_and_write_drift
empty_run = refl

-- A quartile that is NULL ends the run.
null_run :
    detect_and_write_drift never takes
      (record answers { stats = λ name. ok (record quartiles { q3 = null } ∷ []) })
      []
    ≡ (raised type_error, [])
unfolding detect_and_write_drift write_all write_drift
null_run = refl

detect_and_write_drift-Adds_example : Adds Undrifted (detect_and_write_drift never takes answers)
detect_and_write_drift-Adds_example = detect_and_write_drift-Adds never takes answers
