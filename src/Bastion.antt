-- ===== src/Bastion.antt =====
-- scripts/compute_features.py: the feature job that runs from the bastion. The answers of ClickHouse
-- to its queries are arguments; a row that it inserts is one of Spark, and so are the columns. Times
-- are in seconds, dates in days.
pub mod Window
pub mod Gate
pub mod Writing
use paystream.Base.{
  ℕ, zero, suc, ◌+◌, ◌-◌, ◌*◌, ◌/◌, min, Bool, true, false, not, ◌&&◌, ◌||◌, String, List, [], ◌∷◌,
  map, Option, none, some, any, leb, if◌then◌else◌,
}
use paystream.Base.Int.{ℤ, ltb_ℤ}
use paystream.Base.Number.{Number, is_negative, exceeds_one}
use paystream.Base.Task.{
  Result, ok, raised, type_error, system_exit, Task, pure, raise, lift, insert, catch, ◌>>=◌, ◌>>◌,
}
use paystream.Base.Batches.{batches}
use paystream.Spark.{Features, is_null}

abbrev pub snapshot_interval_hours : ℕ
snapshot_interval_hours = 4

abbrev pub feature_version : String
feature_version = "v2.1.0"

-- What the feature query is told of the snapshot.
pub record Cutoffs : Type 0 where
  pub cutoff_7d : ℕ
  pub cutoff_30d : ℕ
  pub cutoff_90d_date : ℕ
  pub snap_date : ℕ

-- 2149-06-01
abbrev pub date_cap : ℕ
date_cap = 65530

unfoldable pub cutoffs_of : ℕ → Cutoffs
cutoffs_of snapshot_ts = record {
  cutoff_7d = snapshot_ts - 7 * 86400;
  cutoff_30d = snapshot_ts - 30 * 86400;
  cutoff_90d_date = min ((snapshot_ts - 90 * 86400) / 86400) date_cap;
  snap_date = min (snapshot_ts / 86400) date_cap;
}

-- A row of the feature query.
pub record Vector : Type 0 where
  pub user_id : ℕ
  pub tx_velocity_7d : Option ℤ
  pub tx_velocity_30d : Option ℤ
  pub avg_tx_amount_30d : Option ℕ
  pub merchant_diversity_30d : Option ℤ
  pub declined_rate_7d : Option Number
  pub repayment_rate_90d : Option Number
  pub active_installments : Option ℤ
  pub days_since_first_tx : Option ℤ

-- `col_names[1:]`, each with its test for `None`.
abbrev pub null_tests : List (Vector → Bool)
null_tests =
    (λ f. is_null f.tx_velocity_7d)
    ∷ (λ f. is_null f.tx_velocity_30d)
    ∷ (λ f. is_null f.avg_tx_amount_30d)
    ∷ (λ f. is_null f.merchant_diversity_30d)
    ∷ (λ f. is_null f.declined_rate_7d)
    ∷ (λ f. is_null f.repayment_rate_90d)
    ∷ (λ f. is_null f.active_installments)
    ∷ (λ f. is_null f.days_since_first_tx)
    ∷ []

-- Python's comparisons, which raise on `None`.
abbrev pub is_less : Option ℤ → Option ℤ → Result Bool
is_less (some a) (some b) = ok (ltb_ℤ a b)
is_less (some a) none = raised type_error
is_less none b = raised type_error

abbrev pub is_outside : Option Number → Result Bool
is_outside none = raised type_error
is_outside (some x) = ok (is_negative x || exceeds_one x)

-- Whether `sum(1 for f in features if test f)` is positive.
abbrev pub either : Result Bool → Result Bool → Result Bool
either (raised e) r = raised e
either (ok b) (raised e) = raised e
either (ok b) (ok c) = ok (b || c)

unfoldable pub some_row : (Vector → Result Bool) → List Vector → Result Bool
some_row test [] = ok false
some_row test (f ∷ fs) = either (test f) (some_row test fs)

-- The quality gate: whether it passes, `raised` where a comparison raises.
abbrev pub verdict : Bool → Result Bool → Result Bool → Bool → Result Bool
verdict nulls (raised e) bad invalid = raised e
verdict nulls (ok v) (raised e) invalid = raised e
verdict nulls (ok v) (ok bad) invalid = ok (not nulls && (not v && (not bad && not invalid)))

unfoldable pub gate : ℕ → ℕ → List Vector → Result Bool
unfolding some_row
gate valid_from valid_to features =
    verdict (any (λ test. any test features) null_tests)
      (some_row (λ f. is_less (f.tx_velocity_30d) (f.tx_velocity_7d)) features)
      (some_row (λ f. is_outside (f.repayment_rate_90d)) features) (leb valid_to valid_from)

-- A row of `insert_rows`.
unfoldable pub insert_row : ℕ → Vector → Features
insert_row snapshot_ts f = record {
  user_id = f.user_id;
  snapshot_ts = snapshot_ts;
  valid_from = snapshot_ts;
  valid_to = snapshot_ts + snapshot_interval_hours * 3600;
  feature_version = feature_version;
  tx_velocity_7d = f.tx_velocity_7d;
  tx_velocity_30d = f.tx_velocity_30d;
  avg_tx_amount_30d = f.avg_tx_amount_30d;
  repayment_rate_90d = f.repayment_rate_90d;
  merchant_diversity_30d = f.merchant_diversity_30d;
  declined_rate_7d = f.declined_rate_7d;
  active_installments = f.active_installments;
  days_since_first_tx = f.days_since_first_tx;
}

pub data Effect : Type 0 where
  inserted : List Features → Effect
  uploaded : List Features → Effect
  marked : Effect

abbrev pub or_exit : List Vector → Task Effect (List Vector)
or_exit [] = raise system_exit
or_exit (f ∷ fs) = pure (f ∷ fs)

module _ (takes : List Effect → Effect → Bool) where
  unfoldable pub insert_batches : List (List Features) → Task Effect (Unit {0})
  insert_batches [] = pure tt
  insert_batches (b ∷ bs) = let later = insert_batches bs in insert takes (inserted b) >> later

  -- `subprocess.run`, whose failure is not looked at.
  abbrev pub run_command : Effect → Task Effect (Unit {0})
  run_command effect = catch (insert takes effect) (λ e. pure tt)

  -- The whole script. `max_ts` and `count` are answers of ClickHouse, `query` what it answers to the
  -- feature query.
  unfoldable pub main :
      Result ℕ → (Cutoffs → Result (List Vector)) → Result ℕ → Task Effect (Unit {0})
  unfolding cutoffs_of gate insert_row insert_batches
  main max_ts query count = do
    snapshot_ts ← lift max_ts
    rows ← lift (query (cutoffs_of snapshot_ts))
    features ← or_exit rows
    passed ← lift (gate snapshot_ts (snapshot_ts + snapshot_interval_hours * 3600) features)
    if passed
        then (do
          insert_batches (batches 5000 (map (insert_row snapshot_ts) features))
          ch_count ← lift count
          run_command (uploaded (map (insert_row snapshot_ts) features))
          run_command marked)
        else raise system_exit
