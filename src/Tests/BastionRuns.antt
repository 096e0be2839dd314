-- ===== src/Tests/BastionRuns.antt =====
-- Runs of scripts/compute_features.py, and of the writes of spark/jobs/credit_feature_engineer.py.
use paystream.Base.{
  ℕ, ◌+◌, ◌*◌, ◌/◌, ◌≤◌, ◌≡◌, ◌≢◌, ◌↔◌, ◌⊎◌, refl, Bool, true, false, List, [], ◌∷◌, any, Option,
  none, some, arith,
}
use paystream.Base.Int.{pos}
use paystream.Base.Number.{ratio, nan}
use paystream.Base.Batches.{batches}
use paystream.Base.Task.{Result, ok, raised, type_error}
use paystream.Spark.{
  Repayment, quality_gate, is_due, main as spark_main, compute_features, read_silver, features_of,
  to_short, average, distinct, avg_tx_amount, merchant_diversity, declined_rate, repayment_rate,
  active_count, account_age,
}
use paystream.Spark.Job.{
  year_of, get_snapshot_ts, Effect as JobEffect, merged, overwritten, run, Written, run-Written,
  write_to_delta,
}
use paystream.Bastion.{
  Vector, Cutoffs, cutoffs_of, date_cap, gate, some_row, insert_row, insert_batches, Effect,
  inserted, uploaded, marked, main, snapshot_interval_hours,
}
use paystream.Bastion.Gate.{stored, is_nan_rate, gate-eq-quality_gate}
use paystream.Bastion.Window.{due_in_query, due_in_query_iff}
use paystream.Bastion.Writing.{Wrote, Exits, main-Wrote}
use paystream.Tests.SparkRuns.{silver, snapshot, row}

abbrev vector : Option ℕ → Vector
vector amount = record {
  user_id = 7;
  tx_velocity_7d = some (pos 2);
  tx_velocity_30d = some (pos 3);
  avg_tx_amount_30d = amount;
  merchant_diversity_30d = some (pos 2);
  declined_rate_7d = some (ratio (pos 1) 1);
  repayment_rate_90d = some (ratio (pos 1) 1);
  active_installments = some (pos 1);
  days_since_first_tx = some (pos 20);
}

abbrev vectors : List Vector
vectors = vector (some 2001) ∷ vector (some 100) ∷ []

gate_run : gate 100000 114400 vectors ≡ ok true
unfolding gate some_row
gate_run = refl

null_run : gate 100000 114400 (vector none ∷ []) ≡ ok false
unfolding gate some_row
null_run = refl

-- A `None` among the velocities is not reported: the comparison after it raises.
null_velocity_run :
    gate 100000 114400 (record (vector none) { tx_velocity_7d = none } ∷ []) ≡ raised type_error
unfolding gate some_row
null_velocity_run = refl

-- The gate of the script lets a NaN through.
nan_gate :
    gate 100000 114400
      (record (vector none) { avg_tx_amount_30d = some 1; repayment_rate_90d = some nan } ∷ [])
    ≡ ok true
unfolding gate some_row
nan_gate = refl

gate-eq-quality_gate_example :
    ((gate 100000 (100000 + snapshot_interval_hours * 3600) vectors ≡ ok true)
      × (any (λ f. is_nan_rate f.repayment_rate_90d) vectors ≡ false))
    ↔ (quality_gate (stored 100000 vectors) ≡ true)
gate-eq-quality_gate_example = gate-eq-quality_gate 100000 vectors

-- The year 2200.
abbrev late : ℕ
late = 84006 * 86400

abbrev due_on : ℕ → Repayment
due_on day = record { user_id = 7; due_date = day; paid_at = none; created_at = 0 }

cap_run : due_in_query (cutoffs_of late) (due_on date_cap) ≡ true
unfolding due_in_query cutoffs_of
cap_run = refl

due_in_query_iff_example : (due_in_query (cutoffs_of late) (due_on 84000) ≡ true) ↔ (
    ((is_due late (due_on 84000) ≡ true) × (84000 ≤ date_cap))
    ⊎ ((date_cap + 90 ≤ late / 86400) × (84000 ≡ date_cap)))
due_in_query_iff_example = due_in_query_iff late (due_on 84000) (omega arith)

-- S3 takes nothing.
abbrev no_copy : List Effect → Effect → Bool
no_copy log (inserted b) = true
no_copy log (uploaded rows) = false
no_copy log marked = false

abbrev answer : Cutoffs → Result (List Vector)
answer c = ok vectors

main_run : main no_copy (ok 100000) answer (ok 2) [] ≡ (
  ok tt,
  inserted (insert_row 100000 (vector (some 2001)) ∷ insert_row 100000 (vector (some 100)) ∷ [])
      ∷ [],
)
unfolding main cutoffs_of gate some_row insert_row insert_batches batches
main_run = refl

main-Wrote_example :
    ((vectors ≢ [])
      × (quality_gate (stored 100000 vectors) ≡ true)
      × Wrote no_copy (ok 100000) answer (ok 2) [] 100000 vectors)
    ⊎ (¬ ((vectors ≢ []) × (quality_gate (stored 100000 vectors) ≡ true))
        × Exits no_copy (ok 100000) answer (ok 2) [])
main-Wrote_example =
    main-Wrote no_copy (ok 100000) answer (ok 2) [] 100000 2 vectors refl (λ log b. refl) refl refl
      refl

-- The first and the last day of a leap year, and the day after.
years_run : (year_of 19723 ≡ 2024) × (year_of 20088 ≡ 2024) × (year_of 20089 ≡ 2025)
unfolding year_of
years_run = (refl, refl, refl)

-- The year 2149 is far in the future of 2026.
capped_run : get_snapshot_ts (20500 * 86400) (some (65530 * 86400)) ≡ ok (20500 * 86400)
unfolding get_snapshot_ts year_of
capped_run = refl

-- Delta Lake fails to merge, and takes the overwrite.
abbrev no_merge : List JobEffect → JobEffect → Bool
no_merge log (merged fs) = false
no_merge log e = true

derived : get_snapshot_ts snapshot (some snapshot) ≡ ok snapshot
unfolding get_snapshot_ts year_of
derived = refl

passed : spark_main snapshot 4 "v2.1.0" silver ≡ some (row ∷ [])
unfolding spark_main compute_features read_silver quality_gate features_of to_short average distinct
    avg_tx_amount merchant_diversity declined_rate repayment_rate active_count account_age
passed = refl

overwritten_run :
    write_to_delta no_merge (ok true) (row ∷ []) [] ≡ (ok tt, overwritten (row ∷ []) ∷ [])
unfolding write_to_delta
overwritten_run = refl

run-Written_example :
    Written no_merge
      (row ∷ [])
      (ok true)
      []
      (run no_merge (ok true) snapshot (some snapshot) 4 "v2.1.0" silver [])
run-Written_example =
    run-Written no_merge (row ∷ []) (ok true) snapshot (some snapshot) 4 "v2.1.0" silver snapshot []
      derived passed
