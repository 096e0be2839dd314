-- ===== src/Pipeline.antt =====
-- dags/utils/compute_features.py: the validation gate of the feature pipeline and the write of its
-- rows. The feature query itself is run by ClickHouse: its rows and the snapshot time are arguments of
-- `main`. The writes go to the database in order, which may refuse any of them.
mod Checks
pub mod Gate
pub mod Clean
pub mod Writing
unfoldable pub use Checks.*
use paystream.Base.{
  ℕ, ◌+◌, ◌-◌, ◌*◌, Bool, true, false, String, List, [], ◌∷◌, map, Option, none, some, length, ◌==◌,
  if◌then◌else◌,
}
use paystream.Base.Number.{Value, is_negative}
use paystream.Base.Task.{
  Result, ok, raised, value_error, key_error, index_error, Task, pure, raise, lift, insert, ◌>>=◌,
  ◌>>◌,
}
use paystream.Base.Batches.{batches}
use paystream.Features.{Row, lookup}

pub record DqResult : Type 0 where
  pub check_name : String
  pub check_type : String
  pub status : String
  pub details : String × ℕ
  pub rows_checked : ℕ
  pub rows_failed : ℕ

-- A row of feature_store.user_credit_features. Times are in seconds.
pub record Stored : Type 0 where
  pub user_id : Value
  pub snapshot_ts : ℕ
  pub valid_from : ℕ
  pub valid_to : ℕ
  pub feature_version : String
  pub features : List Value

pub data Write : Type 0 where
  dq_result : DqResult → Write
  batch : List Stored → Write

abbrev pub snapshot_interval_hours : ℕ
snapshot_interval_hours = 4

abbrev pub feature_version : String
feature_version = "v2.1.0"

abbrev pub unmarked : List Row → List (Row × Bool)
unmarked = map (λ row. (row, false))

-- `[f for i, f in enumerate(features) if i not in invalid_indices]`
unfoldable pub remaining : List (Row × Bool) → List Row
remaining [] = []
remaining ((row, invalid) ∷ rows) =
    let rest = remaining rows in if invalid then rest else row ∷ rest

-- The row that a check writes: `bad` is its status where it counted some row.
abbrev pub dq_row : String → String → String → String → ℕ → ℕ → Write
dq_row name kind bad label total count = dq_result (record {
  check_name = name;
  check_type = kind;
  status = if count == 0 then "pass" else bad;
  details = (label, count);
  rows_checked = total;
  rows_failed = count;
})

abbrev pub null_row : ℕ → ℕ → Write
null_row = dq_row "null_check" "completeness" "fail" "null_rows"

abbrev pub negative_row : ℕ → ℕ → Write
negative_row = dq_row "range_check_non_negative" "validity" "warn" "negative_rows"

abbrev pub rate_row : ℕ → ℕ → Write
rate_row = dq_row "range_check_rates" "validity" "warn" "out_of_range_rows"

abbrev pub ordering_row : ℕ → ℕ → Write
ordering_row = dq_row "velocity_ordering" "consistency" "warn" "misordered_rows"

-- `f['col']` raises on a missing key.
column : String → Row → Result Value
column name row = elim (lookup name row) [ none ↦ raised key_error | some v ↦ ok v ]

columns : List String → Row → Result (List Value)
unfolding column
columns [] row = ok []
columns (name ∷ names) row =
    let rest = columns names row in
    elim (column name row) [
      | raised e ↦ raised e
      | ok v ↦ elim rest [ raised e ↦ raised e | ok vs ↦ ok (v ∷ vs) ]
    ]

-- The order of the INSERT.
abbrev pub stored_columns : List String
stored_columns =
    "tx_velocity_7d" ∷ "tx_velocity_30d" ∷ "avg_tx_amount_30d" ∷ "repayment_rate_90d"
    ∷ "merchant_diversity_30d" ∷ "declined_rate_7d" ∷ "active_installments" ∷ "days_since_first_tx"
    ∷ []

-- One row of `vals`.
unfoldable pub store_row : ℕ → Row → Result Stored
unfolding column columns
store_row snapshot_ts row = elim (column "user_id" row) [
  | raised e ↦ raised e
  | ok user_id ↦ elim (columns stored_columns row) [
    | raised e ↦ raised e
    | ok values ↦ ok (record {
      user_id = user_id;
      snapshot_ts = snapshot_ts;
      valid_from = snapshot_ts;
      valid_to = snapshot_ts + snapshot_interval_hours * 3600;
      feature_version = feature_version;
      features = values;
    })
  ]
]

unfoldable pub store_rows : ℕ → List Row → Result (List Stored)
unfolding store_row
store_rows snapshot_ts [] = ok []
store_rows snapshot_ts (row ∷ rows) =
    let rest = store_rows snapshot_ts rows in
    elim (store_row snapshot_ts row) [
      | raised e ↦ raised e
      | ok s ↦ elim rest [ raised e ↦ raised e | ok ss ↦ ok (s ∷ ss) ]
    ]

or_no_rows : List Row → Task Write (List Row)
or_no_rows [] = raise value_error
or_no_rows (row ∷ rows) = pure (row ∷ rows)

abbrev read_count : Result (List ℕ) → Result (Unit {0})
read_count (raised e) = raised e
read_count (ok []) = raised index_error
read_count (ok (n ∷ ns)) = ok tt

module _ (accepts : List Write → Write → Bool) where
  -- The INSERT of each batch.
  unfoldable pub insert_all : List (List Stored) → Task Write (Unit {0})
  insert_all [] = pure tt
  insert_all (b ∷ bs) = let rest = insert_all bs in insert accepts (batch b) >> rest

module _ (parsers : Parsers) (accepts : List Write → Write → Bool) where
  unfoldable pub validate_features : List Row → Task Write (List Row)
  validate_features features = do
    let total = length features
    nulls ← lift (sweep (has_null feature_columns) (unmarked features))
    insert accepts (null_row total nulls.0)
    negatives ← lift (sweep (out_of_range parsers is_negative non_negative_columns) nulls.1)
    insert accepts (negative_row total negatives.0)
    rates ← lift (sweep (out_of_range parsers outside_rate rate_columns) negatives.1)
    insert accepts (rate_row total rates.0)
    orders ← lift (sweep (misordered parsers) (unmarked features))
    insert accepts (ordering_row total orders.0)
    pure (remaining rates.1)

  module _ (count_of : List Write → Result (List ℕ)) where
    -- The count at the end, of a table to which the writes were made; `[0]["c"]` raises without a row.
    report : Task Write (Unit {0})
    report log = (read_count (count_of log), log)

    -- From the rows of the feature query to the end.
    unfoldable pub main : ℕ → List Row → Task Write (Unit {0})
    unfolding or_no_rows report
    main snapshot_ts features = do
      computed ← or_no_rows features
      validated ← validate_features computed
      kept ← or_no_rows validated
      vals ← lift (store_rows snapshot_ts kept)
      insert_all accepts (batches 1000 vals)
      report
