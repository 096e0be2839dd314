-- ===== src/Seed/Loading.antt =====
-- Each part of a run of scripts/seed_data.py fills its table.
use paystream.Base.{
  ℕ, suc, ◌+◌, ◌≤◌, ◌<◌, ◌≡◌, subst, Bool, true, ◌&&◌, ◌==◌, List, All, All-any, and-intro, length,
  arith,
}
use paystream.Base.Task.{ok}
use paystream.Base.Numeral.{Text}
use paystream.Seed.Rows.{
  User, Merchant, Purchase, Payback, Schedule, gen_users, gen_merchants, gen_transactions,
  gen_repayments, gen_installment_schedules, gen_user, gen_merchant, gen_transaction, gen_repayment,
  gen_installment_schedule,
}
use paystream.Seed.Tables.{
  Table, serial, max_integer, max_bigint, takes_user, takes_merchant, takes_transaction,
  takes_repayment, takes_schedule, Drivers, AreDocumented,
}
use paystream.Seed.Documents.{
  AppEvent, MerchantSession, gen_app_events, gen_merchant_sessions, gen_app_event,
  gen_merchant_session,
}
use paystream.Seed.Conformity.{
  gen_user-Gives, gen_merchant-Gives, gen_transaction-Gives, gen_repayment-Gives,
  gen_installment_schedule-Gives,
}
use paystream.Seed.Kinds.{IsUser, IsMerchant, IsPurchase, IsPayback, IsSchedule, has_pair}
use paystream.Seed.Filling.{Keyed, repeat-Gives, load-serial, load_batches_lem}
use paystream.Seed.Taking.{
  Holds, Numbered, Keys, repeat_same-Gives, user_step, merchant_step, transaction_step,
  repayment_step, schedule_step,
}
use paystream.Seed.Events.{
  Collected, IsAppEvent, IsMerchantSession, load-documents, gen_app_event-Gives,
  gen_merchant_session-Gives,
}
use paystream.Seed.{load, load_batches}

pub ==_refl : (n : ℕ) → (n == n) ≡ true
==_refl n = ground arith

abbrev pub pair_eq : ℕ × ℕ → ℕ × ℕ → Bool
pair_eq p q = (p.0 == q.0) && (p.1 == q.1)

module _ (drivers : Drivers) (documented : AreDocumented drivers) (draws : ℕ → ℕ) (size : ℕ)
    (positive : 0 < size) where
  pub users_loaded :
      (total drawn : ℕ) (t0 : Table User)
      → t0.next_id + total ≤ suc max_bigint
      → Numbered 0 t0
      → (drawn' : ℕ) × (t' : Table User) × (load_batches
            (λ off cnt. gen_users draws cnt off)
            (drivers.execute_values User (serial max_bigint takes_user))
            total
            size
            (drawn, t0)
          ≡ (ok tt, (drawn', t')))
        × Numbered total t'
  unfolding gen_users
  users_loaded total drawn t0 room i =
      let (drawn', t', e, i') =
        load_batches_lem (λ off cnt. gen_users draws cnt off)
          (drivers.execute_values User (serial max_bigint takes_user)) (Keyed Numbered (t0.next_id))
          total
          (λ off cnt d t i p l.
            load-serial takes_user Numbered IsUser user_step max_bigint (t0.next_id) total room
              (drivers.execute_values User (serial max_bigint takes_user)) (gen_users draws cnt off)
              off cnt d t (documented.executes User (serial max_bigint takes_user)) l
              (repeat-Gives IsUser (gen_user draws) total
                (λ idx h. gen_user-Gives draws idx (omega arith)) cnt off l)
              i)
          size drawn t0 positive (i, omega arith) in
      (drawn', t', e, i'.0)

  pub merchants_loaded :
      (n drawn : ℕ) (t0 : Table Merchant)
      → t0.next_id + n ≤ suc max_integer
      → Holds IsMerchant 0 t0
      → (drawn' : ℕ) × (t' : Table Merchant) × (load
            (gen_merchants draws n)
            (drivers.execute_values Merchant (serial max_integer takes_merchant))
            (drawn, t0)
          ≡ (ok tt, (drawn', t')))
        × Holds IsMerchant n t'
  unfolding gen_merchants
  merchants_loaded n drawn t0 room i =
      let (drawn', t', e, i') =
        load-serial takes_merchant (Holds IsMerchant) (λ _. IsMerchant) merchant_step max_integer
          (t0.next_id) n room (drivers.execute_values Merchant (serial max_integer takes_merchant))
          (gen_merchants draws n) 0 n drawn t0
          (documented.executes Merchant (serial max_integer takes_merchant)) (omega arith)
          (repeat-Gives (λ _. IsMerchant) (gen_merchant draws) n
            (λ idx h. gen_merchant-Gives draws idx (omega arith)) n 0 (omega arith))
          (i, omega arith) in
      (drawn', t', e, subst (λ k. Holds IsMerchant k t') (omega arith) (i'.0))

  module _ (users merchants : List ℕ) where
    pub transactions_loaded :
        (total drawn : ℕ) (t0 : Table Purchase)
        → 0 < length users
        → 0 < length merchants
        → t0.next_id + total ≤ suc max_bigint
        → Holds (IsPurchase users merchants) 0 t0
        → (drawn' : ℕ) × (t' : Table Purchase) × (load_batches
              (λ off cnt. gen_transactions draws cnt users merchants)
              (drivers.execute_values Purchase
                (serial max_bigint (takes_transaction users merchants)))
              total
              size
              (drawn, t0)
            ≡ (ok tt, (drawn', t')))
          × Holds (IsPurchase users merchants) total t'
    unfolding gen_transactions
    transactions_loaded total drawn t0 hu hm room i =
        let (drawn', t', e, i') =
          load_batches_lem (λ off cnt. gen_transactions draws cnt users merchants)
            (drivers.execute_values Purchase
              (serial max_bigint (takes_transaction users merchants)))
            (Keyed (Holds (IsPurchase users merchants)) (t0.next_id)) total
            (λ off cnt d t i p l.
              load-serial (takes_transaction users merchants) (Holds (IsPurchase users merchants))
                (λ _. IsPurchase users merchants) (transaction_step users merchants) max_bigint
                (t0.next_id) total room
                (drivers.execute_values Purchase
                  (serial max_bigint (takes_transaction users merchants)))
                (gen_transactions draws cnt users merchants) off cnt d t
                (documented.executes Purchase
                  (serial max_bigint (takes_transaction users merchants)))
                l
                (repeat_same-Gives (IsPurchase users merchants)
                  (gen_transaction draws users merchants) cnt off
                  (gen_transaction-Gives draws users merchants hu hm (All-any ◌==◌ users ==_refl)
                    (All-any ◌==◌ merchants ==_refl)))
                i)
            size drawn t0 positive (i, omega arith) in
        (drawn', t', e, i'.0)

  module _ (transactions users : List ℕ) (pairs : List (ℕ × ℕ)) (some_pairs : 0 < length pairs)
      (keys : All (Keys transactions users) pairs) where
    each_pair : All (λ p. has_pair pairs (p.0) (p.1) ≡ true) pairs
    each_pair = All-any pair_eq pairs (λ p. and-intro (==_refl (p.0)) (==_refl (p.1)))

    pub repayments_loaded :
        (total drawn : ℕ) (t0 : Table Payback)
        → t0.next_id + total ≤ suc max_bigint
        → Holds (IsPayback pairs) 0 t0
        → (drawn' : ℕ) × (t' : Table Payback) × (load_batches
              (λ off cnt. gen_repayments draws cnt pairs)
              (drivers.execute_values Payback
                (serial max_bigint (takes_repayment transactions users)))
              total
              size
              (drawn, t0)
            ≡ (ok tt, (drawn', t')))
          × Holds (IsPayback pairs) total t'
    unfolding gen_repayments
    repayments_loaded total drawn t0 room i =
        let (drawn', t', e, i') =
          load_batches_lem (λ off cnt. gen_repayments draws cnt pairs)
            (drivers.execute_values Payback
              (serial max_bigint (takes_repayment transactions users)))
            (Keyed (Holds (IsPayback pairs)) (t0.next_id)) total
            (λ off cnt d t i p l.
              load-serial (takes_repayment transactions users) (Holds (IsPayback pairs))
                (λ _. IsPayback pairs) (repayment_step transactions users pairs keys) max_bigint
                (t0.next_id) total room
                (drivers.execute_values Payback
                  (serial max_bigint (takes_repayment transactions users)))
                (gen_repayments draws cnt pairs) off cnt d t
                (documented.executes Payback
                  (serial max_bigint (takes_repayment transactions users)))
                l
                (repeat_same-Gives (IsPayback pairs) (gen_repayment draws pairs) cnt off
                  (gen_repayment-Gives draws pairs some_pairs each_pair))
                i)
            size drawn t0 positive (i, omega arith) in
        (drawn', t', e, i'.0)

    pub schedules_loaded :
        (total drawn : ℕ) (t0 : Table Schedule)
        → t0.next_id + total ≤ suc max_bigint
        → Holds (IsSchedule pairs) 0 t0
        → (drawn' : ℕ) × (t' : Table Schedule) × (load_batches
              (λ off cnt. gen_installment_schedules draws cnt pairs)
              (drivers.execute_values Schedule
                (serial max_bigint (takes_schedule transactions users)))
              total
              size
              (drawn, t0)
            ≡ (ok tt, (drawn', t')))
          × Holds (IsSchedule pairs) total t'
    unfolding gen_installment_schedules
    schedules_loaded total drawn t0 room i =
        let (drawn', t', e, i') =
          load_batches_lem (λ off cnt. gen_installment_schedules draws cnt pairs)
            (drivers.execute_values Schedule
              (serial max_bigint (takes_schedule transactions users)))
            (Keyed (Holds (IsSchedule pairs)) (t0.next_id)) total
            (λ off cnt d t i p l.
              load-serial (takes_schedule transactions users) (Holds (IsSchedule pairs))
                (λ _. IsSchedule pairs) (schedule_step transactions users pairs keys) max_bigint
                (t0.next_id) total room
                (drivers.execute_values Schedule
                  (serial max_bigint (takes_schedule transactions users)))
                (gen_installment_schedules draws cnt pairs) off cnt d t
                (documented.executes Schedule
                  (serial max_bigint (takes_schedule transactions users)))
                l
                (repeat_same-Gives (IsSchedule pairs) (gen_installment_schedule draws pairs) cnt off
                  (gen_installment_schedule-Gives draws pairs some_pairs each_pair))
                i)
            size drawn t0 positive (i, omega arith) in
        (drawn', t', e, i'.0)

  module _ (users merchants : List Text) (some_merchants : 0 < length merchants) where
    pub app_events_loaded :
        (total drawn : ℕ) (c : List AppEvent)
        → 0 < length users
        → Collected (IsAppEvent users merchants) 0 c
        → (drawn' : ℕ) × (c' : List AppEvent) × (load_batches
              (λ off cnt. gen_app_events draws cnt users merchants)
              (drivers.insert_many AppEvent)
              total
              size
              (drawn, c)
            ≡ (ok tt, (drawn', c')))
          × Collected (IsAppEvent users merchants) total c'
    unfolding gen_app_events
    app_events_loaded total drawn c hu i =
        load_batches_lem (λ off cnt. gen_app_events draws cnt users merchants)
          (drivers.insert_many AppEvent) (Collected (IsAppEvent users merchants)) total
          (λ off cnt d c i p l.
            load-documents (IsAppEvent users merchants) (drivers.insert_many AppEvent)
              (gen_app_events draws cnt users merchants) off cnt d c (documented.inserts AppEvent)
              (repeat_same-Gives (IsAppEvent users merchants) (gen_app_event draws users merchants)
                cnt off (gen_app_event-Gives draws users merchants hu some_merchants))
              i p)
          size drawn c positive i

    pub sessions_loaded :
        (total drawn : ℕ) (c : List MerchantSession)
        → Collected (IsMerchantSession merchants) 0 c
        → (drawn' : ℕ) × (c' : List MerchantSession) × (load_batches
              (λ off cnt. gen_merchant_sessions draws cnt merchants)
              (drivers.insert_many MerchantSession)
              total
              size
              (drawn, c)
            ≡ (ok tt, (drawn', c')))
          × Collected (IsMerchantSession merchants) total c'
    unfolding gen_merchant_sessions
    sessions_loaded total drawn c i =
        load_batches_lem (λ off cnt. gen_merchant_sessions draws cnt merchants)
          (drivers.insert_many MerchantSession) (Collected (IsMerchantSession merchants)) total
          (λ off cnt d c i p l.
            load-documents (IsMerchantSession merchants) (drivers.insert_many MerchantSession)
              (gen_merchant_sessions draws cnt merchants) off cnt d c
              (documented.inserts MerchantSession)
              (repeat_same-Gives (IsMerchantSession merchants)
                (gen_merchant_session draws merchants) cnt off
                (gen_merchant_session-Gives draws merchants some_merchants))
              i p)
          size drawn c positive i
