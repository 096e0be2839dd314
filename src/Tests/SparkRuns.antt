-- ===== src/Tests/SparkRuns.antt =====
-- Runs of the feature job of spark/jobs/credit_feature_engineer.py.
use paystream.Base.{All, ℕ, ◌<◌, ◌≡◌, refl, true, false, String, [], ◌∷◌, none, some, length, arith}
use paystream.Base.Int.{pos, negsuc}
use paystream.Base.Number.{ratio, nan}
use paystream.Spark.{
  Transaction, Silver, Features, to_short, average, distinct, avg_tx_amount, merchant_diversity,
  declined_rate, repayment_rate, active_count, account_age, features_of, compute_features,
  read_silver, own_transactions, quality_gate, main,
}
use paystream.Spark.Passing.{main-eq-some}
use paystream.Spark.PointInTime.{known, main-known}
use paystream.Spark.Soundness.{IsSound, quality_gate-IsSound}

-- Day 100, noon.
abbrev pub snapshot : ℕ
snapshot = 8683200

abbrev pub tx : ℕ → ℕ → ℕ → ℕ → String → Transaction
tx user created_at amount merchant status = record {
  user_id = user;
  created_at = created_at;
  amount = amount;
  merchant_id = merchant;
  status = status;
}

-- A transaction of today, one declined yesterday, one of day 80, and one that comes after the snapshot.
abbrev pub silver : Silver
silver = record {
  transactions =
      tx 7 8680000 1000 1 "approved"
      ∷ tx 7 8600000 2001 2 "declined"
      ∷ tx 7 6912000 3001 1 "approved"
      ∷ tx 7 8700000 9000 3 "approved"
      ∷ [];
  repayments =
      record { user_id = 7; due_date = 90; paid_at = some 7776000; created_at = 6912000 }
      ∷ record { user_id = 7; due_date = 95; paid_at = some 8208001; created_at = 6912000 }
      ∷ [];
  installments = record { user_id = 7; created_at = 6912000; status = "active" } ∷ [];
}

abbrev pub row : Features
row = record {
  user_id = 7;
  snapshot_ts = snapshot;
  valid_from = snapshot;
  valid_to = 8697600;
  feature_version = "v2.1.0";
  tx_velocity_7d = some (pos 2);
  tx_velocity_30d = some (pos 3);
  avg_tx_amount_30d = some 2001;
  repayment_rate_90d = some (ratio (pos 1) 1);
  merchant_diversity_30d = some (pos 2);
  declined_rate_7d = some (ratio (pos 1) 1);
  active_installments = some (pos 1);
  days_since_first_tx = some (pos 20);
}

main_run : main snapshot 4 "v2.1.0" silver ≡ some (row ∷ [])
unfolding main compute_features read_silver quality_gate features_of to_short average distinct
    avg_tx_amount merchant_diversity declined_rate repayment_rate active_count account_age
main_run = refl

-- 2 ^ 15 transactions are more than a short can count.
to_short_run : to_short (pos 32768) ≡ negsuc 32767
unfolding to_short
to_short_run = refl

few : (u : ℕ) → length (own_transactions u (read_silver snapshot silver)) < 32768
unfolding read_silver
few u = ground arith

main-eq-some_example :
    main snapshot 4 "v2.1.0" silver
    ≡ some (compute_features snapshot 4 "v2.1.0" (read_silver snapshot silver))
unfolding read_silver
main-eq-some_example = main-eq-some snapshot 4 "v2.1.0" silver (omega arith) (omega arith) few

main-known_example :
    main snapshot 4 "v2.1.0" (known snapshot silver) ≡ main snapshot 4 "v2.1.0" silver
main-known_example = main-known snapshot 4 "v2.1.0" silver

-- A repayment whose row comes after the snapshot counts all the same.
late :
    main snapshot 4 "v2.1.0" (record silver {
      repayments = record { user_id = 7; due_date = 95; paid_at = none; created_at = 8700000 } ∷ [];
    })
    ≡ some (record row { repayment_rate_90d = some (ratio (pos 0) 0) } ∷ [])
unfolding main compute_features read_silver quality_gate features_of to_short average distinct
    avg_tx_amount merchant_diversity declined_rate repayment_rate active_count account_age
late = refl

nan_run : quality_gate (record row { repayment_rate_90d = some nan } ∷ []) ≡ false
unfolding quality_gate
nan_run = refl

row_passes : quality_gate (row ∷ []) ≡ true
unfolding quality_gate
row_passes = refl

quality_gate-IsSound_example : All IsSound (row ∷ [])
quality_gate-IsSound_example = quality_gate-IsSound (row ∷ []) row_passes
