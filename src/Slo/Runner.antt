-- ===== src/Slo/Runner.antt =====
-- `main` of stress_test/run_stress_test.py: the queries of a round, and a run with its exit code. The
-- connection test, the outcomes of the queries of each wave and the answers to the measurements are
-- arguments; the keys of the config are there.
use paystream.Base.{
  ℕ, zero, suc, ◌%◌, ◌≡◌, ◌↔◌, Bool, String, List, [], ◌∷◌, map, all, length, Option, none, some,
  arith,
}
use paystream.Base.Task.{Result, ok, raised}
use paystream.Slo.{Stats, run_wave, Slo, Answers, measure_all_slos, code_of, exit_code}
use paystream.Slo.Verdict.{AllMet, exit_code_iff}

abbrev pub stress_queries : List String
stress_queries =
    "SELECT count() FROM bronze.pg_transactions_raw"
    ∷ "SELECT merchant_id, count() FROM silver.transactions_silver GROUP BY merchant_id"
    ∷ "SELECT * FROM feature_store.user_credit_features WHERE user_id = 42 LIMIT 1"
    ∷ "SELECT sum(total_amount) FROM silver.transactions_silver WHERE _ingested_at >= now() - INTERVAL 1 HOUR"
    ∷ "SELECT database, sum(rows) FROM system.parts WHERE active GROUP BY database"
    ∷ "SELECT count(), avg(total_amount) FROM gold.merchant_daily_kpis"
    ∷ "SELECT feature_name, avg(drift_score) FROM feature_store.drift_metrics GROUP BY feature_name"
    ∷ []

abbrev pub query_at : List String → ℕ → String
query_at [] i = ""
query_at (q ∷ qs) zero = q
query_at (q ∷ qs) (suc i) = query_at qs i

-- `for i in range(concurrency)`, from `i` on.
abbrev pub submitted_from : ℕ → ℕ → List String
submitted_from i zero = []
submitted_from i (suc n) = query_at stress_queries (i % 7) ∷ submitted_from (suc i) n

-- The queries of a round, in the order of their submission.
abbrev pub submitted : ℕ → List String
submitted concurrency = submitted_from 0 concurrency

-- What the file of the results holds.
pub record Output : Type 0 where
  pub wave_results : List Stats
  pub slos : List Slo
  pub all_slos_met : Bool

-- How a run ends: what it has written, and its exit code.
pub record Ended : Type 0 where
  pub written : Option Output
  pub code : ℕ

-- One list of outcomes for each wave of the config.
unfoldable pub main : Result (Unit {0}) → List (List (Result ℕ)) → Answers → Ended
main (raised e) waves answers = record { written = none; code = 1 }
main (ok u) waves answers =
    let slo_results = measure_all_slos answers in
    let all_slos_met = all (λ s. s.met) slo_results in
    record {
      written = some (record {
        wave_results = map run_wave waves;
        slos = slo_results;
        all_slos_met = all_slos_met;
      });
      code = code_of all_slos_met;
    }

abbrev pub Connects : Result (Unit {0}) → Type 0
Connects (ok u) = Unit {0}
Connects (raised e) = ⊥

-- With 20 lookups, a run of the stress test exits with 0 exactly if it connects and all the
-- measurements are met, whatever has become of the queries of its waves: each answers, the feature
-- store is less than 6 hours and the Gold layer less than 25 hours old, each less 18 seconds for the
-- rounding, each lookup takes less than 49.995 ms, for the same reason, Bronze is less than 30 seconds and the drift metrics
-- less than 60 minutes old, and there is a settlement.
pub main_iff :
    (connection : Result (Unit {0})) (waves : List (List (Result ℕ))) (answers : Answers)
    → ((xs : List ℕ) → answers.lookups ≡ ok xs → length xs ≡ 20)
    → ((main connection waves answers).code ≡ 0) ↔ (Connects connection × AllMet answers)
unfolding main exit_code
main_iff (raised e) waves answers h = (λ k. absurd (omega arith), λ k. absurd (k.0))
main_iff (ok u) waves answers h =
    let met = exit_code_iff answers h in (λ k. (tt, met.0 k), λ k. met.1 (k.1))
