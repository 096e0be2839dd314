-- ===== src/Slo.antt =====
-- stress_test/measure_slos.py and stress_test/run_stress_test.py: the six SLO measurements, the
-- statistics of a wave of queries, and the verdict. What ClickHouse answers, and how long each query
-- takes, are arguments. A latency of a wave is in hundredths of a millisecond, as it is rounded at the
-- end, which keeps the order. The latency of a feature lookup is in units of 2^-49 ms, of which the float
-- is a whole number: a difference of two readings of a clock past its first second, times 1000.
-- `int(n * 0.99)` is n * 99 / 100, which holds below 2000000 queries. Hours are in
-- hundredths, rounded half up: the ties 5.995 and 24.995 at the two thresholds are rounded up.
pub mod Sorting
pub mod Percentiles
pub mod Verdict
pub mod Runner
use paystream.Base.{
  ℕ, zero, suc, ◌+◌, ◌-◌, ◌*◌, ◌/◌, ◌^◌, min, Bool, true, false, String, List, [], ◌∷◌, length, all,
  get_elem?, Option, none, some, ltb, leb, ◌==◌, if◌then◌else◌,
}
use paystream.Base.Int.{ℤ, pos, negsuc, ltb_ℤ}
use paystream.Base.Number.{negated}
use paystream.Base.Rounding.{round_half_even}
use paystream.Base.Task.{Exn, Result, ok, raised}

-- `latencies.sort()`
abbrev pub insert_sorted : ℕ → List ℕ → List ℕ
insert_sorted x [] = x ∷ []
insert_sorted x (y ∷ ys) = let rest = insert_sorted x ys in if leb x y then x ∷ y ∷ ys else y ∷ rest

abbrev pub sort : List ℕ → List ℕ
sort [] = []
sort (x ∷ xs) = insert_sorted x (sort xs)

-- `xs[i]`, for an index that is in the list.
abbrev pub item : List ℕ → ℕ → ℕ
item [] i = 0
item (x ∷ xs) zero = x
item (x ∷ xs) (suc i) = item xs i

-- `int(total * p / 100)`
abbrev pub rank : ℕ → ℕ → ℕ
rank total p = total * p / 100

-- The statistics of a wave.
pub record Stats : Type 0 where
  pub total_queries : ℕ
  pub errors : ℕ
  pub p50 : ℕ
  pub p95 : ℕ
  pub p99 : ℕ
  pub max_ms : ℕ

-- The loop over the futures of all rounds of a wave: the latencies of those that return, and a count of
-- those that raise.
abbrev pub collect : List (Result ℕ) → List ℕ × ℕ
collect [] = ([], 0)
collect (ok latency ∷ fs) = let rest = collect fs in (latency ∷ rest.0, rest.1)
collect (raised e ∷ fs) = let rest = collect fs in (rest.0, suc rest.1)

abbrev pub at : List ℕ → ℕ → ℕ
at latencies p = item (sort latencies) (rank (length latencies) p)

unfoldable pub stats_of : List ℕ → ℕ → Stats
stats_of latencies errors = record {
  total_queries = length latencies;
  errors = errors;
  p50 = at latencies 50;
  p95 = at latencies 95;
  p99 = at latencies 99;
  max_ms = item (sort latencies) (length latencies - 1);
}

unfoldable pub run_wave : List (Result ℕ) → Stats
unfolding stats_of
run_wave futures = let found = collect futures in stats_of found.0 found.1

-- What `measure_all_slos` keeps of a measurement.
pub record Slo : Type 0 where
  pub name : String
  pub measured_value : Option ℤ
  pub met : Bool

-- `rows[0][0] if rows else None`
abbrev pub first_value : List ℤ → Option ℤ
first_value [] = none
first_value (v ∷ vs) = some v

-- `rows[0][0] if rows else 0`
abbrev pub first_count : List ℕ → ℕ
first_count [] = 0
first_count (c ∷ cs) = c

-- `round(stale_seconds / 3600, 2)`
abbrev pub stale_hours : ℤ → ℤ
stale_hours (pos s) = pos ((s + 18) / 36)
stale_hours (negsuc n) = negated ((suc n + 18) / 36)

abbrev pub hours_slo : String → ℕ → Option ℤ → Slo
hours_slo name limit none = record { name = name; measured_value = none; met = false }
hours_slo name limit (some s) = record {
  name = name;
  measured_value = some (stale_hours s);
  met = ltb_ℤ (stale_hours s) (pos (limit * 100));
}

abbrev pub stale_slo : String → ℕ → Option ℤ → Slo
stale_slo name limit none = record { name = name; measured_value = none; met = false }
stale_slo name limit (some v) = record {
  name = name;
  measured_value = some v;
  met = ltb_ℤ v (pos limit);
}

-- The answers to the queries of the measurements, and the latencies of the 20 feature lookups.
pub record Answers : Type 0 where
  pub feature_store_age : Result (List ℤ)
  pub lookups : Result (List ℕ)
  pub gold_age : Result (List ℤ)
  pub bronze_age : Result (List ℤ)
  pub settlements : Result (List ℕ)
  pub drift_age : Result (List ℤ)

-- `round(latency, 2)` of a lookup, in hundredths of a millisecond.
unfoldable pub hundredths : ℕ → ℕ
unfolding round_half_even
hundredths latency = round_half_even (100 * latency) (2 ^ 49)

-- A measurement on the rows of its query, which may raise.
abbrev pub on_rows : {A : Type 0} → Result A → (A → Slo) → Result Slo
on_rows (raised e) f = raised e
on_rows (ok rows) f = ok (f rows)

module _ (answers : Answers) where
  unfoldable pub measure_feature_store_freshness : Result Slo
  measure_feature_store_freshness =
      on_rows (answers.feature_store_age)
        (λ rows. hours_slo "Feature Store freshness" 6 (first_value rows))

  unfoldable pub measure_feature_api_p99 : Result Slo
  unfolding hundredths
  measure_feature_api_p99 = on_rows (answers.lookups) (λ latencies.
      let p99 =
        hundredths
          (item (sort latencies) (min (rank (length latencies) 99) (length latencies - 1))) in
      record {
        name = "Feature API P99 latency";
        measured_value = some (pos p99);
        met = ltb p99 5000;
      })

  unfoldable pub measure_gold_freshness : Result Slo
  measure_gold_freshness =
      on_rows (answers.gold_age) (λ rows. hours_slo "Gold layer freshness" 25 (first_value rows))

  unfoldable pub measure_ingestion_latency : Result Slo
  measure_ingestion_latency =
      on_rows (answers.bronze_age) (λ rows. stale_slo "Ingestion latency P95" 30 (first_value rows))

  unfoldable pub measure_settlement_reconciliation : Result Slo
  measure_settlement_reconciliation = on_rows (answers.settlements) (λ rows.
      let count = first_count rows in
      record {
        name = "Settlement reconciliation";
        measured_value = some (pos count);
        met = ltb 0 count;
      })

  unfoldable pub measure_drift_detection : Result Slo
  measure_drift_detection =
      on_rows (answers.drift_age)
        (λ rows. stale_slo "Feature drift detection" 60 (first_value rows))

  -- The measurements with the start of their docstrings, in the order of the list.
  unfoldable pub measurements : List (String × Result Slo)
  unfolding measure_feature_store_freshness measure_feature_api_p99 measure_gold_freshness
      measure_ingestion_latency measure_settlement_reconciliation measure_drift_detection
  measurements =
      ("SLO-1", measure_feature_store_freshness)
      ∷ ("SLO-2", measure_feature_api_p99)
      ∷ ("SLO-3", measure_gold_freshness)
      ∷ ("SLO-4", measure_ingestion_latency)
      ∷ ("SLO-5", measure_settlement_reconciliation)
      ∷ ("SLO-6", measure_drift_detection)
      ∷ []

-- One turn of the loop of `measure_all_slos`, with its `except`.
abbrev pub result_of : String → Result Slo → Slo
result_of doc (ok slo) = slo
result_of doc (raised e) = record { name = doc; measured_value = none; met = false }

abbrev pub results_of : List (String × Result Slo) → List Slo
results_of [] = []
results_of ((doc, r) ∷ rs) = result_of doc r ∷ results_of rs

unfoldable pub measure_all_slos : Answers → List Slo
unfolding measurements
measure_all_slos answers = results_of (measurements answers)

abbrev pub code_of : Bool → ℕ
code_of all_slos_met = if all_slos_met then 0 else 1

-- The exit code of `main` of run_stress_test.py.
unfoldable pub exit_code : Answers → ℕ
unfolding measure_all_slos
exit_code answers = code_of (all (λ s. s.met) (measure_all_slos answers))
