-- ===== src/Seed/Kinds.antt =====
-- What the rows of each table are like: the ranges of the columns, and the keys.
use paystream.Base.{
  ℕ, ◌+◌, ◌*◌, ◌≤◌, ◌≡◌, Bool, true, false, ◌&&◌, List, Option, none, some, length, any, ◌==◌,
}
use paystream.Base.Numeral.{Text, codes, text_eq}
use paystream.Seed.Options.{
  user_tiers, kyc_statuses, risk_tiers, tx_statuses, repay_statuses, sched_statuses,
}
use paystream.Seed.Random.{base_date, date_range_days}
use paystream.Seed.Ranges.{Within}
use paystream.Seed.Rows.{User, Merchant, Purchase, Payback, Schedule, email_of}
use paystream.Seed.Options.{
  user_tiers, kyc_statuses, risk_tiers, tx_statuses, repay_statuses, sched_statuses,
}
use paystream.Seed.Tables.{has}

abbrev pub last_ts : ℕ
last_ts = base_date + date_range_days * 86400

-- One of the options, and short enough for the column.
abbrev pub OneOf : List (Text × ℕ) → ℕ → Text → Type 0
OneOf options n s = (any (λ o. text_eq (o.0) s) options ≡ true) × (length s ≤ n)

pub record IsUser (idx : ℕ) (u : User) : Type 0 where
  pub full_name : length (u.full_name) ≤ 100
  pub email : u.email ≡ email_of idx
  pub email_fits : length (u.email) ≤ 150
  pub phone : length (u.phone) ≤ 20
  pub national_id : length (u.national_id) ≤ 20
  pub credit_limit : Within 100000 5000000 (u.credit_limit)
  pub credit_tier : OneOf user_tiers 20 (u.credit_tier)
  pub kyc_status : OneOf kyc_statuses 20 (u.kyc_status)
  pub created_at : Within base_date last_ts (u.created_at)

pub record IsMerchant (m : Merchant) : Type 0 where
  pub merchant_name : length (m.merchant_name) ≤ 200
  pub merchant_category : length (m.merchant_category) ≤ 50
  pub risk_tier : OneOf risk_tiers 20 (m.risk_tier)
  pub commission_rate : Within 100 1000 (m.commission_rate)
  pub credit_limit : Within 10000000 100000000 (m.credit_limit)
  pub country : length (m.country) ≤ 3

pub record IsPurchase (users merchants : List ℕ) (p : Purchase) : Type 0 where
  pub user : has users (p.user_id) ≡ true
  pub merchant : has merchants (p.merchant_id) ≡ true
  pub amount : Within 5000 500000 (p.amount)
  pub currency : p.currency ≡ codes "SAR"
  pub status : OneOf tx_statuses 20 (p.status)
  pub latency : Within 50 500 (p.decision_latency_ms)
  pub installments : Within 4 12 (p.installment_count)
  pub created_at : Within base_date last_ts (p.created_at)

-- A transaction and the user that made it.
abbrev pub has_pair : List (ℕ × ℕ) → ℕ → ℕ → Bool
has_pair pairs tx user = any (λ p. (p.0 == tx) && (p.1 == user)) pairs

-- Where a repayment is paid, and only there, it is so at midnight from zero to five days after it is due.
abbrev pub PaidOn : ℕ → Bool → Option ℕ → Type 0
PaidOn due paid none = paid ≡ false
PaidOn due paid (some at) = (paid ≡ true) × Within (due * 86400) ((due + 5) * 86400) at

module _ (pairs : List (ℕ × ℕ)) where
  pub record IsPayback (p : Payback) : Type 0 where
    pub pair : has_pair pairs (p.transaction_id) (p.user_id) ≡ true
    pub number : Within 1 4 (p.installment_number)
    pub amount : Within 5000 200000 (p.amount)
    pub status : OneOf repay_statuses 20 (p.status)
    pub paid : PaidOn (p.due_date) (text_eq (p.status) (codes "paid")) (p.paid_at)

  -- Each installment is the total over their number, to within half a unit. They end thirty days each
  -- after the start.
  pub record IsSchedule (s : Schedule) : Type 0 where
    pub pair : has_pair pairs (s.transaction_id) (s.user_id) ≡ true
    pub total : Within 20000 500000 (s.total_amount)
    pub count : Within 4 12 (s.installment_count)
    pub not_above :
        2 * (s.installment_amount * s.installment_count) ≤ 2 * s.total_amount + s.installment_count
    pub not_below :
        2 * s.total_amount ≤ 2 * (s.installment_amount * s.installment_count) + s.installment_count
    pub ends : s.end_date ≡ s.start_date + 30 * s.installment_count
    pub status : OneOf sched_statuses 20 (s.status)
