-- ===== src/Seed/Conformity.antt =====
-- What the generated rows are like: the columns of each and its keys.
use native.Mathlib.Nat.{le_trans}
use paystream.Base.{
  ℕ, ◌+◌, ◌*◌, ◌/◌, ◌^◌, ◌≤◌, ◌<◌, ◌≡◌, refl, true, false, List, ◌++◌, none, some, All, length,
  arith, Bool-cases, inl, inr, length-append,
}
use paystream.Base.Action.{pure, Gives, pure-Gives, >>=-Gives}
use paystream.Base.Numeral.{Text, codes, str, text_eq, length-str}
use paystream.Seed.Options.{
  user_tiers, kyc_statuses, merchant_categories, risk_tiers, countries, tx_statuses, repay_statuses,
  installment_counts, sched_statuses,
}
use paystream.Seed.Random.{
  randint, choice, random_ts, random_dec, wc, random_phone, random_national_id,
}
use paystream.Seed.Ranges.{
  Within, randint-Gives, choice-Gives, random_ts-Gives, random_dec-Gives, wc-Gives,
  random_phone-Gives, random_national_id-Gives, round_half_even_near,
}
use paystream.Seed.Rows.{
  email_of, gen_user, gen_merchant, gen_transaction, paid_on, gen_repayment,
  gen_installment_schedule,
}
use paystream.Seed.Options.{
  user_tiers, kyc_statuses, merchant_categories, risk_tiers, countries, tx_statuses, repay_statuses,
  installment_counts, sched_statuses,
}
use paystream.Seed.Tables.{has}
use paystream.Seed.Kinds.{
  OneOf, IsUser, IsMerchant, IsPurchase, has_pair, PaidOn, IsPayback, IsSchedule,
}

module _ (draws : ℕ → ℕ) where
  user_tiers-Gives : Gives (OneOf user_tiers 20) (wc draws user_tiers)
  user_tiers-Gives =
      wc-Gives draws (OneOf user_tiers 20) user_tiers (omega arith)
        ((refl, omega arith), ((refl, omega arith), ((refl, omega arith), tt)))

  kyc_statuses-Gives : Gives (OneOf kyc_statuses 20) (wc draws kyc_statuses)
  kyc_statuses-Gives =
      wc-Gives draws (OneOf kyc_statuses 20) kyc_statuses (omega arith)
        ((refl, omega arith), ((refl, omega arith), ((refl, omega arith), tt)))

  risk_tiers-Gives : Gives (OneOf risk_tiers 20) (wc draws risk_tiers)
  risk_tiers-Gives =
      wc-Gives draws (OneOf risk_tiers 20) risk_tiers (omega arith)
        ((refl, omega arith), ((refl, omega arith), ((refl, omega arith), tt)))

  tx_statuses-Gives : Gives (OneOf tx_statuses 20) (wc draws tx_statuses)
  tx_statuses-Gives =
      wc-Gives draws (OneOf tx_statuses 20) tx_statuses (omega arith)
        ((refl, omega arith), ((refl, omega arith), ((refl, omega arith), tt)))

  repay_statuses-Gives : Gives (OneOf repay_statuses 20) (wc draws repay_statuses)
  repay_statuses-Gives =
      wc-Gives draws (OneOf repay_statuses 20) repay_statuses (omega arith)
        ((refl, omega arith), ((refl, omega arith), ((refl, omega arith), tt)))

  sched_statuses-Gives : Gives (OneOf sched_statuses 20) (wc draws sched_statuses)
  sched_statuses-Gives =
      wc-Gives draws (OneOf sched_statuses 20) sched_statuses (omega arith)
        ((refl, omega arith), ((refl, omega arith), ((refl, omega arith), tt)))

  installment_counts-Gives : Gives (Within 4 12) (wc draws installment_counts)
  installment_counts-Gives =
      wc-Gives draws (Within 4 12) installment_counts (omega arith) (omega arith)

  pub gen_user-Gives : (idx : ℕ) → idx < 10 ^ 95 → Gives (IsUser idx) (gen_user draws idx)
  unfolding gen_user
  gen_user-Gives idx h =
      let name_fits : length (codes "User " ++ str idx) ≤ 100 =
        omega (arith, length-str 94 idx h) in
      let email_fits : length (email_of idx) ≤ 150 =
        omega (arith, length-str 94 idx h, length-append (str idx) (codes "@paystream.test")) in
      >>=-Gives (random_ts draws) _ (random_ts-Gives draws) (λ ts t.
        >>=-Gives (random_phone draws) _ (random_phone-Gives draws) (λ phone p.
          >>=-Gives (random_national_id draws) _ (random_national_id-Gives draws) (λ national_id i.
            >>=-Gives (random_dec draws 100000 5000000) _
              (random_dec-Gives draws 100000 5000000 (omega arith))
              (λ credit_limit c. >>=-Gives (wc draws user_tiers) _ user_tiers-Gives (λ tier r.
                >>=-Gives (wc draws kyc_statuses) _ kyc_statuses-Gives (λ kyc k.
                  pure-Gives (IsUser idx) _ (record {
                    full_name = name_fits;
                    email = refl;
                    email_fits = email_fits;
                    phone = le_trans p (omega arith);
                    national_id = le_trans i (omega arith);
                    credit_limit = c;
                    credit_tier = r;
                    kyc_status = k;
                    created_at = t;
                  })))))))

  pub gen_merchant-Gives : (i : ℕ) → i < 10 ^ 95 → Gives IsMerchant (gen_merchant draws i)
  unfolding gen_merchant
  gen_merchant-Gives i h =
      let name_fits : length (codes "Merchant " ++ str i) ≤ 200 =
        omega (arith, length-str 94 i h) in
      >>=-Gives (random_ts draws) _ (random_ts-Gives draws) (λ ts t.
        >>=-Gives (choice draws merchant_categories) _
          (choice-Gives draws (λ c. length c ≤ 50) merchant_categories (omega arith) (omega arith))
          (λ category c. >>=-Gives (wc draws risk_tiers) _ risk_tiers-Gives (λ risk r.
            >>=-Gives (random_dec draws 100 1000) _ (random_dec-Gives draws 100 1000 (omega arith))
              (λ rate e.
                >>=-Gives (random_dec draws 10000000 100000000) _
                  (random_dec-Gives draws 10000000 100000000 (omega arith))
                  (λ limit l.
                    >>=-Gives (choice draws countries) _
                      (choice-Gives draws (λ c. length c ≤ 3) countries (omega arith) (omega arith))
                      (λ country k. pure-Gives IsMerchant _ (record {
                        merchant_name = name_fits;
                        merchant_category = c;
                        risk_tier = r;
                        commission_rate = e;
                        credit_limit = l;
                        country = k;
                      })))))))

  pub gen_transaction-Gives :
      (users merchants : List ℕ)
      → 0 < length users
      → 0 < length merchants
      → All (λ id. has users id ≡ true) users
      → All (λ id. has merchants id ≡ true) merchants
      → Gives (IsPurchase users merchants) (gen_transaction draws users merchants)
  unfolding gen_transaction
  gen_transaction-Gives users merchants hu hm us ms =
      >>=-Gives (wc draws installment_counts) _ installment_counts-Gives (λ inst_count i.
        >>=-Gives (choice draws users) _
          (choice-Gives draws (λ id. has users id ≡ true) users hu us)
          (λ user u.
            >>=-Gives (choice draws merchants) _
              (choice-Gives draws (λ id. has merchants id ≡ true) merchants hm ms)
              (λ merchant m.
                >>=-Gives (random_dec draws 5000 500000) _
                  (random_dec-Gives draws 5000 500000 (omega arith))
                  (λ amount a. >>=-Gives (wc draws tx_statuses) _ tx_statuses-Gives (λ status s.
                    >>=-Gives (randint draws 50 500) _ (randint-Gives draws 50 500 (omega arith))
                      (λ latency l. >>=-Gives (random_ts draws) _ (random_ts-Gives draws) (λ ts t.
                        pure-Gives (IsPurchase users merchants) _ (record {
                          user = u;
                          merchant = m;
                          amount = a;
                          currency = refl;
                          status = s;
                          latency = l;
                          installments = i;
                          created_at = t;
                        }))))))))

  paid_on-Gives :
      (status : Text) (due : ℕ)
      → Gives (PaidOn due (text_eq status (codes "paid"))) (paid_on draws status due)
  unfolding paid_on
  paid_on-Gives status due = elim (Bool-cases (text_eq status (codes "paid"))) [
    | inl e ↦ rw e (
        >>=-Gives (randint draws 0 5) (λ days. pure (some (due * 86400 + days * 86400)))
          (randint-Gives draws 0 5 (omega arith))
          (λ days d.
            pure-Gives (PaidOn due true) (some (due * 86400 + days * 86400))
              (refl, (omega arith, omega arith))))
    | inr e ↦ rw e (pure-Gives (PaidOn due false) none refl)
  ]

  module _ (pairs : List (ℕ × ℕ)) (some_pairs : 0 < length pairs)
      (each : All (λ p. has_pair pairs (p.0) (p.1) ≡ true) pairs) where
    pair-Gives : Gives (λ p. has_pair pairs (p.0) (p.1) ≡ true) (choice draws pairs)
    pair-Gives = choice-Gives draws (λ p. has_pair pairs (p.0) (p.1) ≡ true) pairs some_pairs each

    pub gen_repayment-Gives : Gives (IsPayback pairs) (gen_repayment draws pairs)
    unfolding gen_repayment
    gen_repayment-Gives = >>=-Gives (choice draws pairs) _ pair-Gives (λ pair p.
        >>=-Gives (wc draws repay_statuses) _ repay_statuses-Gives (λ status s.
          >>=-Gives (random_ts draws) _ (random_ts-Gives draws) (λ due_ts _.
            >>=-Gives (paid_on draws status (due_ts / 86400)) _
              (paid_on-Gives status (due_ts / 86400))
              (λ paid d.
                >>=-Gives (randint draws 1 4) _ (randint-Gives draws 1 4 (omega arith))
                  (λ inst_num n. >>=-Gives (random_ts draws) _ (random_ts-Gives draws) (λ ts _.
                    >>=-Gives (random_dec draws 5000 200000) _
                      (random_dec-Gives draws 5000 200000 (omega arith))
                      (λ amount a.
                        pure-Gives (IsPayback pairs) _
                          (record { pair = p; number = n; amount = a; status = s; paid = d }))))))))

    pub gen_installment_schedule-Gives :
        Gives (IsSchedule pairs) (gen_installment_schedule draws pairs)
    unfolding gen_installment_schedule
    gen_installment_schedule-Gives = >>=-Gives (choice draws pairs) _ pair-Gives (λ pair p.
        >>=-Gives (wc draws installment_counts) _ installment_counts-Gives (λ inst_count i.
          >>=-Gives (random_dec draws 20000 500000) _
            (random_dec-Gives draws 20000 500000 (omega arith))
            (λ total t. >>=-Gives (random_ts draws) _ (random_ts-Gives draws) (λ start_ts _.
              >>=-Gives (wc draws sched_statuses) _ sched_statuses-Gives (λ status s.
                >>=-Gives (random_ts draws) _ (random_ts-Gives draws) (λ ts _.
                  let near = round_half_even_near total inst_count (omega arith) in
                  pure-Gives (IsSchedule pairs) _ (record {
                    pair = p;
                    total = t;
                    count = i;
                    not_above = near.0;
                    not_below = near.1;
                    ends = refl;
                    status = s;
                  })))))))
