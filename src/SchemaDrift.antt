-- ===== src/SchemaDrift.antt =====
-- dags/schema_drift_detector.py: the fields of the Avro schemas against the columns of ClickHouse. The
-- schema registry and system.columns are a parameter, `Sources`. A Python set is a list without repeats,
-- in the order of its first elements; `sorted` in the details is left out.
pub mod Verdicts
pub mod Drift
use paystream.Base.{
  ℕ, ◌+◌, Bool, true, false, not, String, List, [], ◌∷◌, length, filter, any, Option, none, some,
  ◌==◌, str_eq, if◌then◌else◌,
}
use paystream.Base.Task.{Exn, Result, ok, raised, Task, pure, lift, catch, insert, ◌>>=◌, ◌>>◌}
use paystream.Debezium.{or_empty, require_all}

-- A topic and the table that it fills.
pub record Subject : Type 0 where
  pub subject : String
  pub ch_table : String

abbrev pub subjects : List Subject
subjects =
    record {
      subject = "paystream.public.transactions-value";
      ch_table = "bronze.pg_transactions_raw";
    }
    ∷ record { subject = "paystream.public.users-value"; ch_table = "bronze.pg_users_raw" }
    ∷ record { subject = "paystream.public.merchants-value"; ch_table = "bronze.pg_merchants_raw" }
    ∷ record {
      subject = "paystream.public.repayments-value";
      ch_table = "bronze.pg_repayments_raw";
    }
    ∷ record {
      subject = "paystream.public.installment_schedules-value";
      ch_table = "bronze.pg_installments_raw";
    }
    ∷ []

abbrev pub ignored_avro_fields : List String
ignored_avro_fields = "__op" ∷ "__source_ts_ms" ∷ "__deleted" ∷ "__table" ∷ "__lsn" ∷ []

pub data DriftDetails : Type 0 where
  sr_returned : ℕ → String → DriftDetails
  sr_unreachable : Exn → String → DriftDetails
  compared : Subject → List String → ℕ → ℕ → DriftDetails

-- A row of gold.dq_results.
pub record DriftRow : Type 0 where
  pub ch_table : String
  pub status : String
  pub details : DriftDetails
  pub rows_checked : ℕ
  pub rows_failed : ℕ

-- `fields` is what `json.loads` makes of the schema: the names of its fields.
pub record SrResponse : Type 0 where
  pub status_code : ℕ
  pub fields : Result (Option (List (Option String)))

pub record Sources : Type 0 where
  pub latest : String → Result SrResponse
  pub columns : String → Result (List String)

abbrev pub elem : String → List String → Bool
elem s ss = any (str_eq s) ss

unfoldable pub to_set : List String → List String
to_set [] = []
to_set (s ∷ ss) = s ∷ filter (λ t. not (str_eq s t)) (to_set ss)

-- `xs - ys`
abbrev pub minus : List String → List String → List String
minus xs ys = filter (λ x. not (elem x ys)) xs

abbrev pub skip_row : Subject → DriftDetails → DriftRow
skip_row s details = record {
  ch_table = s.ch_table;
  status = "skip";
  details = details;
  rows_checked = 0;
  rows_failed = 0;
}

abbrev pub is_empty : List String → Bool
is_empty [] = true
is_empty (x ∷ xs) = false

abbrev pub avro_fields : List String → List String
avro_fields names = minus (to_set names) ignored_avro_fields

abbrev pub missing : List String → List String → List String
missing avro columns = minus avro (to_set columns)

abbrev pub pass_or_warn : Bool → String
pass_or_warn none_missing = if none_missing then "pass" else "warn"

unfoldable pub compared_row : Subject → List String → List String → DriftRow
compared_row s avro columns = record {
  ch_table = s.ch_table;
  status = pass_or_warn (is_empty (missing avro columns));
  details = compared s (missing avro columns) (length avro) (length (to_set columns));
  rows_checked = length avro;
  rows_failed = length (missing avro columns);
}

module _ (accepts : List DriftRow → DriftRow → Bool) (sources : Sources) where
  abbrev pub skip : Subject → DriftDetails → Task DriftRow (Option (List String))
  skip s details = insert accepts (skip_row s details) >> pure none

  abbrev pub keep_names : Result (List String) → Task DriftRow (Option (List String))
  keep_names names = lift names >>= λ ns. pure (some (avro_fields ns))

  abbrev pub keep_fields :
      Result (Option (List (Option String))) → Task DriftRow (Option (List String))
  keep_fields fields = lift fields >>= λ fs. keep_names (require_all (or_empty fs))

  -- The body of the `try`; none stands for its `continue`.
  abbrev pub read_response : Subject → SrResponse → Task DriftRow (Option (List String))
  read_response s response =
      if response.status_code == 200
      then keep_fields (response.fields)
      else skip s (sr_returned (response.status_code) (s.subject))

  abbrev pub try_fetch :
      Subject → Task DriftRow (Option (List String)) → Task DriftRow (Option (List String))
  try_fetch s body = catch body (λ e. skip s (sr_unreachable e (s.subject)))

  unfoldable pub fetch_fields : Subject → Task DriftRow (Option (List String))
  fetch_fields s = try_fetch s (lift (sources.latest (s.subject)) >>= λ r. read_response s r)

  -- The rest of the loop's body; the result is what it adds to `drift_count`.
  unfoldable pub compare_columns : Subject → Option (List String) → Task DriftRow ℕ
  unfolding compared_row
  compare_columns s none = pure 0
  compare_columns s (some avro) = lift (sources.columns (s.ch_table)) >>= λ columns.
      insert accepts (compared_row s avro columns)
      >> pure (if is_empty (missing avro columns) then 0 else 1)

  unfoldable pub check_subjects : List Subject → Task DriftRow ℕ
  unfolding fetch_fields compare_columns
  check_subjects [] = pure 0
  check_subjects (s ∷ ss) =
      let rest = check_subjects ss in
      fetch_fields s >>= λ avro. compare_columns s avro >>= λ n. rest >>= λ m. pure (n + m)

  unfoldable pub check_schema_drift : Task DriftRow ℕ
  unfolding check_subjects
  check_schema_drift = check_subjects subjects
