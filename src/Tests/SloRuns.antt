-- ===== src/Tests/SloRuns.antt =====
-- Waves and measurements of the stress test.
use paystream.Base.{ℕ, ◌≡◌, ◌*◌, ◌/◌, ◌^◌, ◌++◌, ◌↔◌, refl, List, [], ◌∷◌, length, replicate, arith}
use paystream.Base.Int.{pos}
use paystream.Base.Rounding.{round_half_even}
use paystream.Base.Task.{Result, ok, raised, external_error}
use paystream.Slo.{
  hundredths, stats_of, run_wave, Answers, exit_code, measure_all_slos, measurements,
  measure_feature_store_freshness, measure_feature_api_p99, measure_gold_freshness,
  measure_ingestion_latency, measure_settlement_reconciliation, measure_drift_detection,
}
use paystream.Slo.Percentiles.{IsSummary, run_wave-IsSummary}
use paystream.Slo.Verdict.{AllMet}
use paystream.Slo.Runner.{main, main_iff, Connects, submitted, stress_queries, query_at}

abbrev wave : List (Result ℕ)
wave = ok 700 ∷ raised external_error ∷ ok 300 ∷ ok 500 ∷ []

wave_run :
    run_wave wave
    ≡ record { total_queries = 3; errors = 1; p50 = 500; p95 = 700; p99 = 700; max_ms = 700 }
unfolding run_wave stats_of
wave_run = refl

run_wave-IsSummary_example : IsSummary wave (run_wave wave)
run_wave-IsSummary_example = run_wave-IsSummary wave (omega arith)

-- A feature store of 5 hours, 59 minutes and 42 seconds: its age is rounded to 6 hours.
abbrev answers : Answers
answers = record {
  feature_store_age = ok (pos 21582 ∷ []);
  lookups = ok (replicate 20 (12 * 2 ^ 49));
  gold_age = ok (pos 3600 ∷ []);
  bronze_age = ok (pos 5 ∷ []);
  settlements = ok (200 ∷ []);
  drift_age = ok (pos 12 ∷ []);
}

exit_run : exit_code answers ≡ 1
unfolding hundredths round_half_even exit_code measure_all_slos measurements
    measure_feature_store_freshness measure_feature_api_p99 measure_gold_freshness
    measure_ingestion_latency measure_settlement_reconciliation measure_drift_detection
exit_run = refl

-- 49.994 ms is 49.99, and 49.996 ms is 50, which misses the target of less than 50.
hundredths_run :
    (hundredths (49994 * 2 ^ 49 / 1000) ≡ 4999) × (hundredths (49996 * 2 ^ 49 / 1000) ≡ 5000)
unfolding hundredths round_half_even
hundredths_run = (refl, refl)

twenty : (xs : List ℕ) → ok (replicate 20 (12 * 2 ^ 49)) ≡ ok xs → length xs ≡ 20
twenty xs h = ground arith

round_run : submitted 8 ≡ stress_queries ++ query_at stress_queries 0 ∷ []
round_run = refl

-- A wave whose queries all fail.
abbrev failing : List (Result ℕ)
failing = raised external_error ∷ raised external_error ∷ []

abbrev met : Answers
met = record answers { feature_store_age = ok (pos 600 ∷ []) }

failing_run : (main (ok tt) (failing ∷ []) met).code ≡ 0
unfolding hundredths round_half_even main measure_all_slos measurements
    measure_feature_store_freshness measure_feature_api_p99 measure_gold_freshness
    measure_ingestion_latency measure_settlement_reconciliation measure_drift_detection
failing_run = refl

main_iff_example : ((main (ok tt) (failing ∷ []) met).code ≡ 0) ↔ (Connects (ok tt) × AllMet met)
main_iff_example = main_iff (ok tt) (failing ∷ []) met twenty
