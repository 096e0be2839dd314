-- ===== src/DriftMonitor.antt =====
-- dags/feature_drift_monitor.py: the drift of each feature. The answers of ClickHouse are a parameter,
-- `Answers`, and so is `float(str)`; a count is a whole number. The interquartile range, which is only
-- printed, is left out.
pub mod Blind
use paystream.Base.{
  ℕ, zero, suc, ◌*◌, Bool, true, false, String, List, [], ◌∷◌, Option, none, some, ltb,
  if◌then◌else◌,
}
use paystream.Base.Int.{pos, negsuc}
use paystream.Base.Number.{Number, ratio, infinity, neg_infinity, nan, Value, null, number, text}
use paystream.Base.Task.{
  Exn, Result, ok, raised, value_error, type_error, Task, pure, lift, insert, ◌>>=◌, ◌>>◌,
}

abbrev pub feature_names : List String
feature_names =
    "tx_velocity_7d" ∷ "tx_velocity_30d" ∷ "avg_tx_amount_30d" ∷ "repayment_rate_90d"
    ∷ "merchant_diversity_30d" ∷ "declined_rate_7d" ∷ "active_installments" ∷ "days_since_first_tx"
    ∷ []

-- A row of feature_store.drift_metrics.
pub record DriftMetric : Type 0 where
  pub feature_name : String
  pub drift_score : Number
  pub is_drifted : ℕ
  pub baseline_median : Number
  pub current_median : Number

pub record Quartiles : Type 0 where
  pub q1 : Value
  pub q3 : Value
  pub med : Value

-- `count` has the first column of each row.
pub record Answers : Type 0 where
  pub count : Result (List ℕ)
  pub stats : String → Result (List Quartiles)

-- `count` is empty, or its first value is 0.
abbrev pub is_empty : List ℕ → Bool
is_empty [] = true
is_empty (zero ∷ ns) = true
is_empty (suc n ∷ ns) = false

-- `x > 3.0`
abbrev pub exceeds_three : Number → Bool
exceeds_three (ratio (pos n) d) = ltb (3 * suc d) n
exceeds_three (ratio (negsuc n) d) = false
exceeds_three infinity = true
exceeds_three neg_infinity = false
exceeds_three nan = false

module _ (float_of : String → Option Number) (accepts : List DriftMetric → DriftMetric → Bool) where
  abbrev pub or_value_error : Option Number → Result Number
  or_value_error none = raised value_error
  or_value_error (some x) = ok x

  -- `float(value)`
  abbrev pub float : Value → Result Number
  float null = raised type_error
  float (number x) = ok x
  float (text s) = or_value_error (float_of s)

  -- The row of a feature, with the score of the source.
  abbrev pub metric : String → Number → DriftMetric
  metric name med =
      let drift_score = ratio (pos 0) 0 in
      record {
        feature_name = name;
        drift_score = drift_score;
        is_drifted = if exceeds_three drift_score then 1 else 0;
        baseline_median = med;
        current_median = med;
      }

  unfoldable pub write_drift : String → List Quartiles → Task DriftMetric (Unit {0})
  write_drift name [] = pure tt
  write_drift name (row ∷ rows) = do
    q1 ← lift (float (row.q1))
    q3 ← lift (float (row.q3))
    med ← lift (float (row.med))
    insert accepts (metric name med)

  module _ (answers : Answers) where
    -- The loop over the features.
    unfoldable pub write_all : List String → Task DriftMetric (Unit {0})
    unfolding write_drift
    write_all [] = pure tt
    write_all (name ∷ names) =
        let rest = write_all names in
        do stats ← lift (answers.stats name); write_drift name stats; rest

    unfoldable pub detect_and_write_drift : Task DriftMetric (Unit {0})
    unfolding write_all
    detect_and_write_drift = do
      count ← lift (answers.count)
      if is_empty count then pure tt else write_all feature_names
