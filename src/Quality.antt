-- ===== src/Quality.antt =====
-- dags/dq_validation.py: the data quality checks and the gate on their results. The answers of
-- ClickHouse are a parameter, `Database`; a check may find any query to raise. The rows that a check
-- writes and the values that it pushes to its run are the writes of a task. A coverage is compared with
-- 0.95 and 0.80 as the exact fraction that it is, which agrees with its float below 2 ^ 49 users.
mod Parser
pub mod Parsing
pub mod Rows
pub mod Gate
pub mod Silence
unfoldable pub use Parser.*
use paystream.Base.{
  ℕ, ◌+◌, ◌-◌, ◌*◌, ◌≡◌, Bool, true, false, not, ◌&&◌, String, List, [], ◌∷◌, ◌++◌, map, length,
  filter, all, Option, none, some, ◌==◌, leb, str_eq, if◌then◌else◌,
}
use paystream.Base.Int.{ℤ, pos, sub_ℕ, abs}
use paystream.Base.Task.{Result, ok, raised, Exn, Task, pure, lift, catch, insert, ◌>>=◌, ◌>>◌}

pub record Timestamps : Type 0 where
  pub future : ℕ
  pub ancient : ℕ
  pub total : ℕ

pub data Details : Type 0 where
  no_dbt : Details
  dbt : Summary → Details
  coverage : ℕ → ℕ → Details  -- of the users of Silver, those in the Feature Store
  nulls : ℕ → ℕ → Details
  table_rows : List (String × ℕ × ℕ × Bool) → Details
  timestamps : List (String × Timestamps × Bool) → Details

-- A row of gold.dq_results.
pub record DqRow : Type 0 where
  pub stage : String
  pub check_name : String
  pub check_type : String
  pub status : String
  pub details : Details
  pub rows_checked : ℕ
  pub rows_failed : ℤ

pub data Effect : Type 0 where
  dq_row : DqRow → Effect
  xcom_push : String → String → Effect

pub record Database : Type 0 where
  pub silver_users : Result (List ℕ)
  pub fs_users : Result (List ℕ)
  pub fs_users_uniq : Result (List ℕ)
  pub null_rows : Result (List ℕ)
  pub fs_rows : Result (List ℕ)
  pub count_of : String → Result (List ℕ)
  pub timestamps_of : String → Result (List Timestamps)
  pub recent_failures : List Effect → Result (List ℕ)  -- given the writes so far

-- `result[0]["c"] if result else 0`
abbrev pub first_count : List ℕ → ℕ
first_count [] = 0
first_count (c ∷ rows) = c

abbrev pub first_timestamps : List Timestamps → Timestamps
first_timestamps [] = record { future = 0; ancient = 0; total = 0 }
first_timestamps (row ∷ rows) = row

abbrev pub sum : List ℕ → ℕ
sum [] = 0
sum (n ∷ ns) = n + sum ns

-- `fs / silver if silver > 0 else 0`, against 0.95 and 0.80.
unfoldable pub coverage_status : ℕ → ℕ → String
coverage_status silver fs =
    if silver == 0
    then "fail"
    else if leb (19 * silver) (20 * fs)
    then "pass"
    else if leb (4 * silver) (5 * fs)
    then "warn"
    else "fail"

abbrev pub pass_if : Bool → String
pass_if b = if b then "pass" else "fail"

abbrev pub no_summary : Summary
no_summary = record { passed = 0; warned = 0; errored = 0; skipped = 0; total = 0 }

abbrev pub or_no_summary : Option Summary → Summary
or_no_summary none = no_summary
or_no_summary (some s) = s

unfoldable pub summary_of : List ℕ → Summary
summary_of raw = or_no_summary (search_summary raw)

abbrev pub dbt_row : Summary → DqRow
dbt_row s = record {
  stage = "dbt";
  check_name = "dbt_test_suite";
  check_type = "test_run";
  status = pass_if (s.errored == 0);
  details = dbt s;
  rows_checked = s.total;
  rows_failed = pos (s.errored);
}

abbrev pub dbt_skip_row : DqRow
dbt_skip_row = record {
  stage = "dbt";
  check_name = "dbt_test_suite";
  check_type = "test_run";
  status = "skip";
  details = no_dbt;
  rows_checked = 0;
  rows_failed = pos 0;
}

abbrev pub gold_tables : List (String × ℕ)
gold_tables =
    ("gold.merchant_daily_kpis", 200)
    ∷ ("gold.user_cohorts", 49000)
    ∷ ("gold.settlement_reconciliation", 200)
    ∷ []

abbrev pub bronze_tables : List String
bronze_tables =
    "bronze.pg_transactions_raw" ∷ "bronze.pg_repayments_raw" ∷ "bronze.pg_users_raw"
    ∷ "bronze.pg_merchants_raw" ∷ "bronze.pg_installments_raw" ∷ []

abbrev pub bad : Timestamps → ℕ
bad row = row.future + row.ancient

-- A task that raises is failed, and the run goes on.
abbrev pub attempt : Task Effect (Unit {0}) → Task Effect (Unit {0})
attempt check = catch check (λ e. pure tt)

module _ (accepts : List Effect → Effect → Bool) where
  -- The INSERT of a row, then `xcom_push` of its status.
  unfoldable pub write_and_push : DqRow → String → Task Effect (Unit {0})
  write_and_push row key =
      insert accepts (dq_row row) >> insert accepts (xcom_push key (row.status))

  -- `xcom_pull(...) or ""` is the argument.
  unfoldable pub parse_and_write_dbt_results : List ℕ → Task Effect (Unit {0})
  unfolding summary_of write_and_push
  parse_and_write_dbt_results [] = write_and_push dbt_skip_row "dbt_status"
  parse_and_write_dbt_results (c ∷ raw) =
      write_and_push (dbt_row (summary_of (c ∷ raw))) "dbt_status"

  module _ (db : Database) where
    unfoldable pub check_feature_completeness : Task Effect (Unit {0})
    unfolding coverage_status write_and_push
    check_feature_completeness = do
      silver ← lift (db.silver_users)
      fs ← lift (db.fs_users)
      write_and_push
          (record {
            stage = "feature_store";
            check_name = "completeness_check";
            check_type = "completeness";
            status = coverage_status (first_count silver) (first_count fs);
            details = coverage (first_count silver) (first_count fs);
            rows_checked = first_count silver;
            rows_failed = sub_ℕ (first_count silver) (first_count fs);
          })
          "fs_completeness_status"

    unfoldable pub check_feature_nulls : Task Effect (Unit {0})
    unfolding write_and_push
    check_feature_nulls = do
      found ← lift (db.null_rows)
      rows ← lift (db.fs_rows)
      write_and_push
          (record {
            stage = "feature_store";
            check_name = "null_check";
            check_type = "completeness";
            status = pass_if (first_count found == 0);
            details = nulls (first_count found) (first_count rows);
            rows_checked = first_count rows;
            rows_failed = pos (first_count found);
          })
          "fs_null_status"

    -- `results`, with the table, its rows, the rows expected and whether they are there.
    unfoldable pub count_tables : List (String × ℕ) → Task Effect (List (String × ℕ × ℕ × Bool))
    count_tables [] = pure []
    count_tables ((table, min_rows) ∷ tables) =
        let rest = count_tables tables in
        lift (db.count_of table) >>= λ res. rest >>= λ results.
        pure ((table, first_count res, min_rows, leb min_rows (first_count res)) ∷ results)

    unfoldable pub check_gold_completeness : Task Effect (Unit {0})
    unfolding count_tables write_and_push
    check_gold_completeness = do
      results ← count_tables gold_tables
      write_and_push
          (record {
            stage = "gold";
            check_name = "gold_completeness_check";
            check_type = "completeness";
            status = pass_if (all (λ r. r.3) results);
            details = table_rows results;
            rows_checked = sum (map (λ r. r.1) results);
            rows_failed = pos (length (filter (λ r. not (r.3)) results));
          })
          "gold_completeness_status"

    unfoldable pub check_gold_feature_reconciliation : Task Effect (Unit {0})
    unfolding coverage_status write_and_push
    check_gold_feature_reconciliation = do
      silver ← lift (db.silver_users)
      fs ← lift (db.fs_users_uniq)
      write_and_push
          (record {
            stage = "gold";
            check_name = "gold_feature_reconciliation";
            check_type = "reconciliation";
            status = coverage_status (first_count silver) (first_count fs);
            details = coverage (first_count silver) (first_count fs);
            rows_checked = first_count silver;
            rows_failed = pos (abs (sub_ℕ (first_count silver) (first_count fs)));
          })
          "gold_reconciliation_status"

    unfoldable pub scan_tables : List String → Task Effect (List (String × Timestamps × Bool))
    scan_tables [] = pure []
    scan_tables (table ∷ tables) =
        let rest = scan_tables tables in
        lift (db.timestamps_of table) >>= λ res. rest >>= λ results.
        pure ((table, first_timestamps res, bad (first_timestamps res) == 0) ∷ results)

    unfoldable pub check_bronze_timestamp_range : Task Effect (Unit {0})
    unfolding scan_tables write_and_push
    check_bronze_timestamp_range = do
      results ← scan_tables bronze_tables
      write_and_push
          (record {
            stage = "bronze";
            check_name = "bronze_timestamp_range";
            check_type = "timestamp_range";
            status = pass_if (all (λ r. r.2) results);
            details = timestamps results;
            rows_checked = sum (map (λ r. r.1.total) results);
            rows_failed = pos (sum (map (λ r. bad (r.1)) results));
          })
          "bronze_ts_status"

    unfoldable pub evaluate_quality_gate : Task Effect Bool
    evaluate_quality_gate log = elim (db.recent_failures log) [
      | raised e ↦ (raised e, log)
      | ok result ↦ (ok (first_count result == 0), log)
    ]

    -- The checks, each run once, in this order.
    unfoldable pub run_checks : List ℕ → Task Effect (Unit {0})
    unfolding parse_and_write_dbt_results check_feature_completeness check_feature_nulls
        check_gold_completeness check_gold_feature_reconciliation check_bronze_timestamp_range
    run_checks raw =
        attempt (parse_and_write_dbt_results raw)
        >> (attempt check_feature_completeness
            >> (attempt check_feature_nulls
                >> (attempt check_gold_completeness
                    >> (attempt check_gold_feature_reconciliation
                        >> attempt check_bronze_timestamp_range))))

    -- The gate has the trigger rule all_done.
    unfoldable pub dag_run : List ℕ → Task Effect Bool
    unfolding run_checks evaluate_quality_gate
    dag_run raw = run_checks raw >>= λ u. evaluate_quality_gate
