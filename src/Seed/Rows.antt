-- ===== src/Seed/Rows.antt =====
-- The rows of the five PostgreSQL tables and their generators in scripts/seed_data.py. Amounts are in
-- units of the last place, times are seconds, dates are days.
use paystream.Base.{
  ℕ, zero, suc, ◌+◌, ◌*◌, ◌/◌, List, [], ◌∷◌, ◌++◌, Option, none, some, if◌then◌else◌,
}
use paystream.Base.Action.{Act, pure, ◌>>=◌}
use paystream.Base.Numeral.{Text, codes, str, text_eq}
use paystream.Seed.Options.{
  user_tiers, kyc_statuses, merchant_categories, risk_tiers, countries, tx_statuses, repay_statuses,
  installment_counts, sched_statuses,
}
use paystream.Base.Rounding.{round_half_even}
use paystream.Seed.Random.{
  randint, choice, random_ts, random_dec, wc, random_phone, random_national_id,
}

pub record User : Type 0 where
  pub full_name : Text
  pub email : Text
  pub phone : Text
  pub national_id : Text
  pub credit_limit : ℕ
  pub credit_tier : Text
  pub kyc_status : Text
  pub created_at : ℕ
  pub updated_at : ℕ

pub record Merchant : Type 0 where
  pub merchant_name : Text
  pub merchant_category : Text
  pub risk_tier : Text
  pub commission_rate : ℕ
  pub credit_limit : ℕ
  pub country : Text
  pub created_at : ℕ
  pub updated_at : ℕ

pub record Purchase : Type 0 where
  pub user_id : ℕ
  pub merchant_id : ℕ
  pub amount : ℕ
  pub currency : Text
  pub status : Text
  pub decision_latency_ms : ℕ
  pub installment_count : ℕ
  pub created_at : ℕ

pub record Payback : Type 0 where
  pub transaction_id : ℕ
  pub user_id : ℕ
  pub installment_number : ℕ
  pub amount : ℕ
  pub due_date : ℕ
  pub paid_at : Option ℕ
  pub status : Text
  pub created_at : ℕ
  pub updated_at : ℕ

pub record Schedule : Type 0 where
  pub transaction_id : ℕ
  pub user_id : ℕ
  pub total_amount : ℕ
  pub installment_count : ℕ
  pub installment_amount : ℕ
  pub start_date : ℕ
  pub end_date : ℕ
  pub status : Text
  pub created_at : ℕ

abbrev pub email_of : ℕ → Text
email_of idx = codes "user" ++ (str idx ++ codes "@paystream.test")

-- The loops of the generators: `n` times, with the index of the round.
unfoldable pub repeat : {A : Type 0} → (ℕ → Act ℕ A) → ℕ → ℕ → Act ℕ (List A)
repeat gen idx zero = pure []
repeat gen idx (suc n) =
    let later = repeat gen (suc idx) n in do row ← gen idx; rows ← later; pure (row ∷ rows)

module _ (draws : ℕ → ℕ) where
  unfoldable pub gen_user : ℕ → Act ℕ User
  unfolding random_ts random_phone random_national_id random_dec wc str
  gen_user idx = do
    ts ← random_ts draws
    phone ← random_phone draws
    national_id ← random_national_id draws
    credit_limit ← random_dec draws 100000 5000000
    tier ← wc draws user_tiers
    kyc ← wc draws kyc_statuses
    pure (record {
      full_name = codes "User " ++ str idx;
      email = email_of idx;
      phone = phone;
      national_id = national_id;
      credit_limit = credit_limit;
      credit_tier = tier;
      kyc_status = kyc;
      created_at = ts;
      updated_at = ts;
    })

  unfoldable pub gen_users : ℕ → ℕ → Act ℕ (List User)
  unfolding repeat gen_user
  gen_users n offset = repeat gen_user offset n

  unfoldable pub gen_merchant : ℕ → Act ℕ Merchant
  unfolding random_ts choice random_dec wc str
  gen_merchant i = do
    ts ← random_ts draws
    category ← choice draws merchant_categories
    risk ← wc draws risk_tiers
    rate ← random_dec draws 100 1000
    limit ← random_dec draws 10000000 100000000
    country ← choice draws countries
    pure (record {
      merchant_name = codes "Merchant " ++ str i;
      merchant_category = category;
      risk_tier = risk;
      commission_rate = rate;
      credit_limit = limit;
      country = country;
      created_at = ts;
      updated_at = ts;
    })

  unfoldable pub gen_merchants : ℕ → Act ℕ (List Merchant)
  unfolding repeat gen_merchant
  gen_merchants n = repeat gen_merchant 0 n

  unfoldable pub gen_transaction : List ℕ → List ℕ → Act ℕ Purchase
  unfolding wc choice random_dec randint random_ts
  gen_transaction user_ids merchant_ids = do
    inst_count ← wc draws installment_counts
    user ← choice draws user_ids
    merchant ← choice draws merchant_ids
    amount ← random_dec draws 5000 500000
    status ← wc draws tx_statuses
    latency ← randint draws 50 500
    ts ← random_ts draws
    pure (record {
      user_id = user;
      merchant_id = merchant;
      amount = amount;
      currency = codes "SAR";
      status = status;
      decision_latency_ms = latency;
      installment_count = inst_count;
      created_at = ts;
    })

  unfoldable pub gen_transactions : ℕ → List ℕ → List ℕ → Act ℕ (List Purchase)
  unfolding repeat gen_transaction
  gen_transactions n user_ids merchant_ids = repeat (λ i. gen_transaction user_ids merchant_ids) 0 n

  -- When it was paid, for a status and a due date.
  unfoldable pub paid_on : Text → ℕ → Act ℕ (Option ℕ)
  unfolding randint
  paid_on status due =
      if text_eq status (codes "paid")
      then (do days ← randint draws 0 5; pure (some (due * 86400 + days * 86400)))
      else pure none

  unfoldable pub gen_repayment : List (ℕ × ℕ) → Act ℕ Payback
  unfolding choice wc random_ts paid_on randint random_dec
  gen_repayment tx_user_pairs = do
    pair ← choice draws tx_user_pairs
    status ← wc draws repay_statuses
    due_ts ← random_ts draws
    paid ← paid_on status (due_ts / 86400)
    inst_num ← randint draws 1 4
    ts ← random_ts draws
    amount ← random_dec draws 5000 200000
    pure (record {
      transaction_id = pair.0;
      user_id = pair.1;
      installment_number = inst_num;
      amount = amount;
      due_date = due_ts / 86400;
      paid_at = paid;
      status = status;
      created_at = ts;
      updated_at = ts;
    })

  unfoldable pub gen_repayments : ℕ → List (ℕ × ℕ) → Act ℕ (List Payback)
  unfolding repeat gen_repayment
  gen_repayments n tx_user_pairs = repeat (λ i. gen_repayment tx_user_pairs) 0 n

  unfoldable pub gen_installment_schedule : List (ℕ × ℕ) → Act ℕ Schedule
  unfolding choice wc random_dec random_ts round_half_even
  gen_installment_schedule tx_user_pairs = do
    pair ← choice draws tx_user_pairs
    inst_count ← wc draws installment_counts
    total ← random_dec draws 20000 500000
    start_ts ← random_ts draws
    status ← wc draws sched_statuses
    ts ← random_ts draws
    pure (record {
      transaction_id = pair.0;
      user_id = pair.1;
      total_amount = total;
      installment_count = inst_count;
      installment_amount = round_half_even total inst_count;
      start_date = start_ts / 86400;
      end_date = start_ts / 86400 + 30 * inst_count;
      status = status;
      created_at = ts;
    })

  unfoldable pub gen_installment_schedules : ℕ → List (ℕ × ℕ) → Act ℕ (List Schedule)
  unfolding repeat gen_installment_schedule
  gen_installment_schedules n tx_user_pairs =
      repeat (λ i. gen_installment_schedule tx_user_pairs) 0 n
