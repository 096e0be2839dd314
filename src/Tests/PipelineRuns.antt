-- ===== src/Tests/PipelineRuns.antt =====
-- The validation gate and the writes of dags/utils/compute_features.py.
use paystream.Base.{ℕ, ◌≡◌, refl, true, Bool, none, List, [], ◌∷◌, ◌++◌, All, length}
use paystream.Base.Int.{pos, negsuc}
use paystream.Base.Number.{ratio, Value, null, number}
use paystream.Base.Task.{ok, Result}
use paystream.Base.Batches.{batches}
use paystream.Features.{Row, lookup}
use paystream.Pipeline.{
  Write, batch, Stored, Parsers, get, sweep, has_null, out_of_range, to_float, to_int, get_or_zero,
  misordered, remaining, validate_features, store_row, store_rows, insert_all, main, null_row,
  negative_row, rate_row, ordering_row,
}
use paystream.Pipeline.Gate.{Validated, validate_features_lem}
use paystream.Pipeline.Clean.{IsClean, validate_features-IsClean}
use paystream.Pipeline.Writing.{Ran, main-Ran}

abbrev whole : ℕ → Value
whole n = number (ratio (pos n) 0)

abbrev pub parsers : Parsers
parsers = record { float_of = λ s. none; int_of = λ s. none }

abbrev pub always : List Write → Write → Bool
always log w = true

abbrev feature_row : ℕ → Value → Value → Value → Row
feature_row user v7 amount repaid =
    ("user_id", whole user)
    ∷ ("tx_velocity_7d", v7)
    ∷ ("tx_velocity_30d", whole 15)
    ∷ ("avg_tx_amount_30d", amount)
    ∷ ("merchant_diversity_30d", whole 8)
    ∷ ("declined_rate_7d", number (ratio (pos 1) 9))
    ∷ ("repayment_rate_90d", repaid)
    ∷ ("active_installments", whole 3)
    ∷ ("days_since_first_tx", whole 200)
    ∷ []

-- A clean row, a NULL, a negative amount, a rate of 3/2, and a row whose 7-day velocity is above its
-- 30-day one.
abbrev pub rows : List Row
rows =
    feature_row 1 (whole 5) (whole 2500) (number (ratio (pos 3) 3))
    ∷ feature_row 2 (whole 5) (whole 2500) null
    ∷ feature_row 3 (whole 5) (number (ratio (negsuc 49) 0)) (whole 1)
    ∷ feature_row 4 (whole 5) (whole 2500) (number (ratio (pos 3) 1))
    ∷ feature_row 5 (whole 20) (whole 2500) (whole 1)
    ∷ []

abbrev kept : List Row
kept =
    feature_row 1 (whole 5) (whole 2500) (number (ratio (pos 3) 3))
    ∷ feature_row 5 (whole 20) (whole 2500) (whole 1)
    ∷ []

abbrev results : List Write
results = null_row 5 1 ∷ negative_row 5 1 ∷ rate_row 5 1 ∷ ordering_row 5 1 ∷ []

validate_features_run : validate_features parsers always rows [] ≡ (ok kept, results)
unfolding validate_features sweep has_null out_of_range to_float to_int get_or_zero misordered
    remaining get lookup
validate_features_run = refl

validate_features_lem_example : Validated parsers rows kept [] results
validate_features_lem_example =
    validate_features_lem parsers always rows kept [] results validate_features_run

validate_features-IsClean_example : All (IsClean parsers) kept
validate_features-IsClean_example =
    validate_features-IsClean parsers always rows kept [] results validate_features_run

abbrev stored : ℕ → Value → Value → Stored
stored user v7 repaid = record {
  user_id = whole user;
  snapshot_ts = 1000;
  valid_from = 1000;
  valid_to = 15400;
  feature_version = "v2.1.0";
  features =
      v7
      ∷ whole 15
      ∷ whole 2500
      ∷ repaid
      ∷ whole 8
      ∷ number (ratio (pos 1) 9)
      ∷ whole 3
      ∷ whole 200
      ∷ [];
}

abbrev pub written : List Write
written =
    results
    ++ batch (stored 1 (whole 5) (number (ratio (pos 3) 3)) ∷ stored 5 (whole 20) (whole 1) ∷ [])
      ∷ []

abbrev counts : List Write → Result (List ℕ)
counts log = ok (length log ∷ [])

main_run : main parsers always counts 1000 rows [] ≡ (ok tt, written)
unfolding main validate_features sweep has_null out_of_range to_float to_int get_or_zero misordered
    remaining get lookup store_row store_rows insert_all batches
main_run = refl

main-Ran_example : Ran always parsers counts 1000 rows [] written
main-Ran_example = main-Ran always parsers counts 1000 rows [] written main_run
