-- ===== src/Tests/SchemaRuns.antt =====
-- Runs of the schema drift detector.
use paystream.Base.{
  ◌≡◌, refl, Bool, true, String, List, [], ◌∷◌, ◌++◌, map, some, str_eq, if◌then◌else◌,
}
use paystream.Base.Task.{Result, ok, raised, external_error}
use paystream.SchemaDrift.{
  Subject, subjects, DriftRow, SrResponse, to_set, avro_fields, compared_row, check_schema_drift,
}
use paystream.SchemaDrift.Verdicts.{sources, verdict, drift_of, sum, check_schema_drift-Does}

abbrev always : List DriftRow → DriftRow → Bool
always log w = true

abbrev taken : (log : List DriftRow) (w : DriftRow) → always log w ≡ true
taken log w = refl

abbrev fields : List String
fields = "id" ∷ "amount" ∷ "__op" ∷ "currency" ∷ []

-- The registry knows the transactions only.
abbrev latest : String → Result SrResponse
latest subject =
    if str_eq subject "paystream.public.transactions-value"
    then ok (record { status_code = 200; fields = ok (some (map (λ f. some f) fields)) })
    else raised external_error

abbrev columns : String → List String
columns table = "id" ∷ "amount" ∷ []

abbrev transactions : Subject
transactions = record {
  subject = "paystream.public.transactions-value";
  ch_table = "bronze.pg_transactions_raw";
}

status_run : (compared_row transactions (avro_fields fields) (columns "")).rows_failed ≡ 1
unfolding compared_row to_set
status_run = refl

check_schema_drift-Does_example : check_schema_drift always (sources latest columns) [] ≡ (
  ok (sum (map (drift_of latest columns) subjects)),
  [] ++ map (verdict latest columns) subjects,
)
check_schema_drift-Does_example = check_schema_drift-Does always taken latest columns []
