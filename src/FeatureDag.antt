-- ===== src/FeatureDag.antt =====
-- dags/feature_pipeline.py: its tasks, and a run of `ge_gate >> compute >> verify_fs`. A task that
-- raises fails, and those after it are not started. `compute` is the script of Pipeline; the counts of
-- Silver are arguments.
pub mod Gated
use paystream.Base.{ℕ, zero, suc, Bool, List, [], ◌∷◌}
use paystream.Base.Task.{Exn, Result, ok, raised, value_error, index_error, Task, lift, ◌>>=◌, ◌>>◌}
use paystream.Features.{Row}
use paystream.Pipeline.{Write, Parsers, main}

-- `if ch_result[0][0] > 0: raise`, of the first column of the answer.
abbrev pub require_zero : Result (List ℕ) → Result (Unit {0})
require_zero (raised e) = raised e
require_zero (ok []) = raised index_error
require_zero (ok (zero ∷ ns)) = ok tt
require_zero (ok (suc n ∷ ns)) = raised value_error

abbrev pub and_then : Result (Unit {0}) → Result (Unit {0}) → Result (Unit {0})
and_then (raised e) r = raised e
and_then (ok u) r = r

-- The negative amounts, and the repayments with no valid status.
unfoldable pub run_ge_validation : Result (List ℕ) → Result (List ℕ) → Result (Unit {0})
run_ge_validation negatives statuses = and_then (require_zero negatives) (require_zero statuses)

unfoldable pub verify_feature_store : Result (List ℕ) → Result (Unit {0})
verify_feature_store (raised e) = raised e
verify_feature_store (ok []) = raised value_error
verify_feature_store (ok (zero ∷ ns)) = raised value_error
verify_feature_store (ok (suc n ∷ ns)) = ok tt

module _ (parsers : Parsers) (accepts : List Write → Write → Bool)
    (count_of : List Write → Result (List ℕ)) where
  abbrev pub verify : Task Write (Unit {0})
  verify log = (verify_feature_store (count_of log), log)

  unfoldable pub dag_run : Result (List ℕ) → Result (List ℕ) → ℕ → List Row → Task Write (Unit {0})
  dag_run negatives statuses snapshot_ts features = do
    lift (run_ge_validation negatives statuses)
    main parsers accepts count_of snapshot_ts features
    verify
