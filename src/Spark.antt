-- ===== src/Spark.antt =====
-- spark/jobs/credit_feature_engineer.py: the credit features of each user and the gate before their
-- write. A table is the list of its rows, a time is in seconds and a date in days, both since 1970, an
-- amount in cents. A rate is the exact fraction that its float rounds. Spark runs without ANSI mode: a
-- cast to ShortType keeps the low 16 bits, and a division by 0 is NULL.
mod Columns
pub mod Bounds
pub mod Passing
pub mod PointInTime
pub mod Soundness
pub mod Job
unfoldable pub use Columns.*
use paystream.Base.{
  ℕ, suc, ◌+◌, ◌-◌, ◌*◌, ◌/◌, Bool, true, false, not, ◌&&◌, String, List, [], ◌∷◌, map, length,
  filter, any, all, Option, none, some, ◌==◌, leb, ltb, str_eq, if◌then◌else◌,
}
use paystream.Base.Int.{ℤ, pos, sub_ℕ, ltb_ℤ}
use paystream.Base.Number.{Number, ratio, infinity, neg_infinity, nan, is_negative, exceeds_one}

pub record Transaction : Type 0 where
  pub user_id : ℕ
  pub created_at : ℕ
  pub amount : ℕ
  pub merchant_id : ℕ
  pub status : String

pub record Repayment : Type 0 where
  pub user_id : ℕ
  pub due_date : ℕ
  pub paid_at : Option ℕ
  pub created_at : ℕ

pub record Installment : Type 0 where
  pub user_id : ℕ
  pub created_at : ℕ
  pub status : String

-- The tables of Silver.
pub record Silver : Type 0 where
  pub transactions : List Transaction
  pub repayments : List Repayment
  pub installments : List Installment

-- A row of the features. `none` is NULL.
pub record Features : Type 0 where
  pub user_id : ℕ
  pub snapshot_ts : ℕ
  pub valid_from : ℕ
  pub valid_to : ℕ
  pub feature_version : String
  pub tx_velocity_7d : Option ℤ
  pub tx_velocity_30d : Option ℤ
  pub avg_tx_amount_30d : Option ℕ
  pub repayment_rate_90d : Option Number
  pub merchant_diversity_30d : Option ℤ
  pub declined_rate_7d : Option Number
  pub active_installments : Option ℤ
  pub days_since_first_tx : Option ℤ

-- `created_at >= snapshot_ts - timedelta(days=n)`
abbrev pub since : ℕ → ℕ → Transaction → Bool
since n snapshot_ts t = leb snapshot_ts (t.created_at + n * 86400)

abbrev pub is_declined : Transaction → Bool
is_declined t = str_eq t.status "declined"

-- The columns of `compute_tx_features` for the transactions of one user.
abbrev pub velocity : ℕ → ℕ → List Transaction → ℤ
velocity n snapshot_ts ts = to_short (pos (length (filter (since n snapshot_ts) ts)))

unfoldable pub avg_tx_amount : ℕ → List Transaction → Option ℕ
avg_tx_amount snapshot_ts ts =
    to_decimal_10_2 (average (map (λ t. t.amount) (filter (since 30 snapshot_ts) ts)))

unfoldable pub merchant_diversity : ℕ → List Transaction → ℤ
merchant_diversity snapshot_ts ts =
    to_short (pos (length (distinct (map (λ t. t.merchant_id) (filter (since 30 snapshot_ts) ts)))))

unfoldable pub declined_rate : ℕ → List Transaction → Number
declined_rate snapshot_ts ts =
    rate (length (filter (λ t. since 7 snapshot_ts t && is_declined t) ts))
      (length (filter (since 7 snapshot_ts) ts))

-- `due_date` from 90 days before the day of the snapshot to that day.
abbrev pub is_due : ℕ → Repayment → Bool
is_due snapshot_ts r =
    leb (snapshot_ts / 86400) (r.due_date + 90) && leb r.due_date (snapshot_ts / 86400)

-- `paid_at.isNotNull() & (paid_at <= due_date)`, where the date becomes the time of its midnight.
abbrev pub paid_by : ℕ → Option ℕ → Bool
paid_by limit none = false
paid_by limit (some t) = leb t limit

abbrev pub on_time : Repayment → Bool
on_time r = paid_by (r.due_date * 86400) (r.paid_at)

abbrev pub group_rate : List Repayment → Option Number
group_rate [] = none
group_rate (r ∷ rs) = some (rate (length (filter on_time (r ∷ rs))) (length (r ∷ rs)))

-- One user's row of `compute_repayment_rate`: none where the user has no group.
unfoldable pub repayment_rate : ℕ → List Repayment → Option Number
repayment_rate snapshot_ts rs = group_rate (filter (is_due snapshot_ts) rs)

abbrev pub is_active : Installment → Bool
is_active i = str_eq i.status "active"

-- One user's row of `compute_installment_features`.
unfoldable pub active_count : List Installment → Option ℤ
active_count is = count_of (filter is_active is)
  where
    count_of : List Installment → Option ℤ
    count_of [] = none
    count_of (i ∷ is) = some (to_short (pos (length (i ∷ is))))

-- `datediff(snapshot_ts, min(created_at))` of `compute_account_age`.
unfoldable pub account_age : ℕ → List Transaction → Option ℤ
account_age snapshot_ts [] = none
account_age snapshot_ts (t ∷ ts) =
    some (sub_ℕ (snapshot_ts / 86400) (least t.created_at (map (λ t. t.created_at) ts) / 86400))

-- `fillna` of one column.
abbrev pub fill : {A : Type 0} → A → Option A → Option A
fill default none = some default
fill default (some a) = some a

abbrev pub cast_short : Option ℤ → Option ℤ
cast_short none = none
cast_short (some z) = some (to_short z)

abbrev pub own_transactions : ℕ → Silver → List Transaction
own_transactions u silver = filter (λ t. t.user_id == u) (silver.transactions)

abbrev pub own_repayments : ℕ → Silver → List Repayment
own_repayments u silver = filter (λ r. r.user_id == u) (silver.repayments)

abbrev pub own_installments : ℕ → Silver → List Installment
own_installments u silver = filter (λ i. i.user_id == u) (silver.installments)

module _ (snapshot_ts interval_hours : ℕ) (feature_version : String) where
  -- The row of a user after the joins, `fill_defaults` and the casts of the selection.
  unfoldable pub features_of : Silver → ℕ → Features
  unfolding avg_tx_amount merchant_diversity declined_rate repayment_rate active_count account_age
  features_of silver u =
      let ts = own_transactions u silver in
      record {
        user_id = u;
        snapshot_ts = snapshot_ts;
        valid_from = snapshot_ts;
        valid_to = snapshot_ts + interval_hours * 3600;
        feature_version = feature_version;
        tx_velocity_7d = cast_short (fill (pos 0) (some (velocity 7 snapshot_ts ts)));
        tx_velocity_30d = cast_short (fill (pos 0) (some (velocity 30 snapshot_ts ts)));
        avg_tx_amount_30d = fill 0 (avg_tx_amount snapshot_ts ts);
        repayment_rate_90d =
            fill (ratio (pos 0) 0) (repayment_rate snapshot_ts (own_repayments u silver));
        merchant_diversity_30d =
            cast_short (fill (pos 0) (some (merchant_diversity snapshot_ts ts)));
        declined_rate_7d = fill (ratio (pos 0) 0) (some (declined_rate snapshot_ts ts));
        active_installments = cast_short (fill (pos 0) (active_count (own_installments u silver)));
        days_since_first_tx = cast_short (fill (pos 0) (account_age snapshot_ts ts));
      }

  -- The users are those with a transaction.
  unfoldable pub compute_features : Silver → List Features
  unfolding features_of
  compute_features silver =
      map (features_of silver) (distinct (map (λ t. t.user_id) (silver.transactions)))

-- The filters of the three reads of `main`.
unfoldable pub read_silver : ℕ → Silver → Silver
read_silver snapshot_ts silver = record {
  transactions = filter (λ t. leb t.created_at snapshot_ts) (silver.transactions);
  repayments = filter (λ r. leb r.due_date (snapshot_ts / 86400)) (silver.repayments);
  installments = filter (λ i. leb i.created_at snapshot_ts) (silver.installments);
}

abbrev pub is_null : {A : Type 0} → Option A → Bool
is_null none = true
is_null (some a) = false

abbrev pub null_columns : List (Features → Bool)
null_columns =
    (λ f. is_null f.tx_velocity_7d)
    ∷ (λ f. is_null f.tx_velocity_30d)
    ∷ (λ f. is_null f.avg_tx_amount_30d)
    ∷ (λ f. is_null f.repayment_rate_90d)
    ∷ (λ f. is_null f.merchant_diversity_30d)
    ∷ (λ f. is_null f.declined_rate_7d)
    ∷ (λ f. is_null f.active_installments)
    ∷ (λ f. is_null f.days_since_first_tx)
    ∷ []

-- The conditions of the other checks. A comparison with NULL selects nothing.
abbrev pub slower : Option ℤ → Option ℤ → Bool
slower (some v30) (some v7) = ltb_ℤ v30 v7
slower (some v30) none = false
slower none v7 = false

-- `x > 1` in Spark, where NaN is above every number.
abbrev pub above_one : Number → Bool
above_one (ratio z d) = exceeds_one (ratio z d)
above_one infinity = true
above_one neg_infinity = false
above_one nan = true

abbrev pub outside : Option Number → Bool
outside none = false
outside (some x) = if is_negative x then true else above_one x

unfoldable pub quality_gate : List Features → Bool
quality_gate features =
    all (λ column. not (any column features)) null_columns
    && (not (any (λ f. slower (f.tx_velocity_30d) (f.tx_velocity_7d)) features)
        && (not (any (λ f. outside (f.repayment_rate_90d)) features)
            && not (any (λ f. leb f.valid_to f.valid_from) features)))

-- The end of `main`, from the features: none where it exits, and else the rows that it writes.
abbrev pub gated : List Transaction → List Features → Option (List Features)
gated [] features = none
gated (t ∷ ts) features = if quality_gate features then some features else none

-- `main` with the snapshot given.
unfoldable pub main : ℕ → ℕ → String → Silver → Option (List Features)
main snapshot_ts interval_hours feature_version silver =
    let read = read_silver snapshot_ts silver in
    gated (read.transactions) (compute_features snapshot_ts interval_hours feature_version read)
