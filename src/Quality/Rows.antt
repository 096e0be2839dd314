-- ===== src/Quality/Rows.antt =====
-- What the checks of dags/dq_validation.py write when every query is answered and every write taken.
use paystream.Base.{
  ℕ, ◌+◌, ◌≡◌, Bool, true, not, String, List, [], ◌∷◌, map, length, filter, all, ◌==◌, leb, str_eq,
  if◌then◌else◌,
}
use paystream.Base.Int.{pos, sub_ℕ, abs}
use paystream.Base.Task.{ok}
use paystream.Base.Trace.{Does, >>=-Does, insert-Does, catch-Does}
use paystream.Quality.{
  Timestamps, coverage, nulls, table_rows, timestamps, DqRow, Effect, dq_row, xcom_push, Database,
  sum, coverage_status, pass_if, summary_of, dbt_row, dbt_skip_row, gold_tables, bronze_tables, bad,
  write_and_push, parse_and_write_dbt_results, check_feature_completeness, check_feature_nulls,
  count_tables, check_gold_completeness, check_gold_feature_reconciliation, scan_tables,
  check_bronze_timestamp_range, attempt,
}

-- What ClickHouse holds.
pub record Contents : Type 0 where
  pub silver : ℕ
  pub fs : ℕ
  pub fs_uniq : ℕ
  pub with_null : ℕ
  pub fs_rows : ℕ
  pub rows_in : String → ℕ
  pub stamps_in : String → Timestamps

abbrev pub weight : String → ℕ
weight status = if str_eq status "fail" then 1 else 0

-- A row of gold.dq_results with the status "fail".
abbrev pub fails : Effect → ℕ
fails (dq_row r) = weight (r.status)
fails (xcom_push key v) = 0

abbrev pub failures : List Effect → ℕ
failures [] = 0
failures (e ∷ es) = fails e + failures es

-- A database that answers every query with one row; all the rows written are of the last hour.
abbrev pub answering : Contents → Database
answering c = record {
  silver_users = ok (c.silver ∷ []);
  fs_users = ok (c.fs ∷ []);
  fs_users_uniq = ok (c.fs_uniq ∷ []);
  null_rows = ok (c.with_null ∷ []);
  fs_rows = ok (c.fs_rows ∷ []);
  count_of = λ table. ok (c.rows_in table ∷ []);
  timestamps_of = λ table. ok (c.stamps_in table ∷ []);
  recent_failures = λ log. ok (failures log ∷ []);
}

abbrev pub test_row : List ℕ → DqRow
test_row [] = dbt_skip_row
test_row (c ∷ raw) = dbt_row (summary_of (c ∷ raw))

abbrev pub completeness_row : Contents → DqRow
completeness_row c = record {
  stage = "feature_store";
  check_name = "completeness_check";
  check_type = "completeness";
  status = coverage_status (c.silver) (c.fs);
  details = coverage (c.silver) (c.fs);
  rows_checked = c.silver;
  rows_failed = sub_ℕ (c.silver) (c.fs);
}

abbrev pub null_row : Contents → DqRow
null_row c = record {
  stage = "feature_store";
  check_name = "null_check";
  check_type = "completeness";
  status = pass_if (c.with_null == 0);
  details = nulls (c.with_null) (c.fs_rows);
  rows_checked = c.fs_rows;
  rows_failed = pos (c.with_null);
}

abbrev pub counted : Contents → List (String × ℕ × ℕ × Bool)
counted c = map (λ t. (t.0, c.rows_in (t.0), t.1, leb (t.1) (c.rows_in (t.0)))) gold_tables

abbrev pub gold_row : Contents → DqRow
gold_row c = record {
  stage = "gold";
  check_name = "gold_completeness_check";
  check_type = "completeness";
  status = pass_if (all (λ r. r.3) (counted c));
  details = table_rows (counted c);
  rows_checked = sum (map (λ r. r.1) (counted c));
  rows_failed = pos (length (filter (λ r. not (r.3)) (counted c)));
}

abbrev pub reconciliation_row : Contents → DqRow
reconciliation_row c = record {
  stage = "gold";
  check_name = "gold_feature_reconciliation";
  check_type = "reconciliation";
  status = coverage_status (c.silver) (c.fs_uniq);
  details = coverage (c.silver) (c.fs_uniq);
  rows_checked = c.silver;
  rows_failed = pos (abs (sub_ℕ (c.silver) (c.fs_uniq)));
}

abbrev pub scanned : Contents → List (String × Timestamps × Bool)
scanned c = map (λ t. (t, c.stamps_in t, bad (c.stamps_in t) == 0)) bronze_tables

abbrev pub bronze_row : Contents → DqRow
bronze_row c = record {
  stage = "bronze";
  check_name = "bronze_timestamp_range";
  check_type = "timestamp_range";
  status = pass_if (all (λ r. r.2) (scanned c));
  details = timestamps (scanned c);
  rows_checked = sum (map (λ r. r.1.total) (scanned c));
  rows_failed = pos (sum (map (λ r. bad (r.1)) (scanned c)));
}

-- A row and the value pushed beside it.
abbrev pub written : DqRow → String → List Effect
written row key = dq_row row ∷ xcom_push key (row.status) ∷ []

module _ (accepts : List Effect → Effect → Bool)
    (taken : (log : List Effect) (w : Effect) → accepts log w ≡ true) where
  write_and_push-Does :
      (row : DqRow) (key : String) → Does (write_and_push accepts row key) tt (written row key)
  unfolding write_and_push
  write_and_push-Does row key =
      >>=-Does _ _ (insert-Does accepts _ (λ log. taken log _))
        (insert-Does accepts _ (λ log. taken log _))

  pub test-Does :
      (raw : List ℕ)
      → Does
          (attempt (parse_and_write_dbt_results accepts raw))
          tt
          (written (test_row raw) "dbt_status")
  unfolding parse_and_write_dbt_results
  test-Does [] = catch-Does _ _ (write_and_push-Does dbt_skip_row "dbt_status")
  test-Does (x ∷ raw) =
      catch-Does _ _ (write_and_push-Does (dbt_row (summary_of (x ∷ raw))) "dbt_status")

  pub completeness-Does :
      (c : Contents)
      → Does
          (attempt (check_feature_completeness accepts (answering c)))
          tt
          (written (completeness_row c) "fs_completeness_status")
  unfolding check_feature_completeness
  completeness-Does c =
      catch-Does _ _
        (record { does = (write_and_push-Does (completeness_row c) "fs_completeness_status").does })

  pub null-Does :
      (c : Contents)
      → Does
          (attempt (check_feature_nulls accepts (answering c)))
          tt
          (written (null_row c) "fs_null_status")
  unfolding check_feature_nulls
  null-Does c =
      catch-Does _ _ (record { does = (write_and_push-Does (null_row c) "fs_null_status").does })

  pub gold-Does :
      (c : Contents)
      → Does
          (attempt (check_gold_completeness accepts (answering c)))
          tt
          (written (gold_row c) "gold_completeness_status")
  unfolding check_gold_completeness count_tables
  gold-Does c =
      catch-Does _ _
        (record { does = (write_and_push-Does (gold_row c) "gold_completeness_status").does })

  pub reconciliation-Does :
      (c : Contents)
      → Does
          (attempt (check_gold_feature_reconciliation accepts (answering c)))
          tt
          (written (reconciliation_row c) "gold_reconciliation_status")
  unfolding check_gold_feature_reconciliation
  reconciliation-Does c = catch-Does _ _ (record {
    does = (write_and_push-Does (reconciliation_row c) "gold_reconciliation_status").does;
  })

  pub bronze-Does :
      (c : Contents)
      → Does
          (attempt (check_bronze_timestamp_range accepts (answering c)))
          tt
          (written (bronze_row c) "bronze_ts_status")
  unfolding check_bronze_timestamp_range scan_tables
  bronze-Does c =
      catch-Does _ _
        (record { does = (write_and_push-Does (bronze_row c) "bronze_ts_status").does })
