-- ===== src/Tests/FeatureDagRuns.antt =====
-- Runs of the DAG around the feature pipeline.
use paystream.Base.{ℕ, suc, ◌+◌, ◌≡◌, refl, ap, true, List, [], ◌∷◌, length, any, arith}
use paystream.Base.Task.{Result, ok, raised, value_error}
use paystream.Base.Batches.{batches}
use paystream.Features.{lookup}
use paystream.Pipeline.{
  Write, batch, dq_result, get, sweep, has_null, out_of_range, to_float, to_int, get_or_zero,
  misordered, remaining, validate_features, store_row, store_rows, insert_all, main,
}
use paystream.FeatureDag.{dag_run, run_ge_validation, verify_feature_store}
use paystream.FeatureDag.Gated.{is_rows, CountsRows, Gated, dag_run-Gated}
use paystream.Tests.PipelineRuns.{rows, parsers, always, written}

abbrev stored_in : List Write → ℕ
stored_in [] = 0
stored_in (dq_result r ∷ log) = stored_in log
stored_in (batch b ∷ log) = length b + stored_in log

abbrev count_of : List Write → Result (List ℕ)
count_of log = ok (stored_in log ∷ [])

stored_in-rows : (log : List Write) → any is_rows log ≡ true → (n : ℕ) × (stored_in log ≡ suc n)
stored_in-rows [] h = absurd cc
stored_in-rows (dq_result r ∷ log) h = stored_in-rows log h
stored_in-rows (batch [] ∷ log) h = let (n, e) = stored_in-rows log h in (n, omega (arith, e))
stored_in-rows (batch (s ∷ ss) ∷ log) h = (length ss + stored_in log, omega arith)

count_of-CountsRows : CountsRows count_of
count_of-CountsRows log h = let (n, e) = stored_in-rows log h in (n, ap (λ k. ok (k ∷ [])) e)

dag_run_run :
    dag_run parsers always count_of (ok (0 ∷ [])) (ok (0 ∷ [])) 1000 rows [] ≡ (ok tt, written)
unfolding dag_run run_ge_validation verify_feature_store main validate_features sweep has_null
    out_of_range to_float to_int get_or_zero misordered remaining get lookup store_row store_rows
    insert_all batches
dag_run_run = refl

-- One negative amount in Silver, and nothing is computed.
closed_run :
    dag_run parsers always count_of (ok (1 ∷ [])) (ok (0 ∷ [])) 1000 rows []
    ≡ (raised value_error, [])
unfolding dag_run run_ge_validation
closed_run = refl

dag_run-Gated_example :
    Gated parsers always count_of
      (ok (0 ∷ []))
      (ok (0 ∷ []))
      1000
      rows
      []
      (dag_run parsers always count_of (ok (0 ∷ [])) (ok (0 ∷ [])) 1000 rows [])
dag_run-Gated_example =
    dag_run-Gated parsers always count_of count_of-CountsRows (ok (0 ∷ [])) (ok (0 ∷ [])) 1000 rows
      []
