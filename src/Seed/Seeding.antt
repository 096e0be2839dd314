-- ===== src/Seed/Seeding.antt =====
-- A whole run of scripts/seed_data.py.
use paystream.Base.{
  ℕ, suc, ◌+◌, ◌≤◌, ◌<◌, ◌≡◌, refl, true, ◌==◌, List, [], ◌∷◌, map, All, All-any, All-map, length,
  arith, length-map,
}
use paystream.Base.Task.{ok}
use paystream.Base.Action.{pure, ◌>>=◌}
use paystream.Base.Numeral.{str}
use paystream.Seed.Rows.{Purchase}
use paystream.Seed.Tables.{
  Table, has, truncate, Drivers, AreDocumented, ids_of, max_integer, max_bigint,
}
use paystream.Seed.Kinds.{IsMerchant, IsPurchase, IsPayback, IsSchedule}
use paystream.Seed.Taking.{Holds, Numbered, Keys}
use paystream.Seed.Events.{Collected, IsAppEvent, IsMerchantSession}
use paystream.Seed.Loading.{
  ==_refl, users_loaded, merchants_loaded, transactions_loaded, repayments_loaded, schedules_loaded,
  app_events_loaded, sessions_loaded,
}
use paystream.Seed.{
  Volumes, World, seed_postgresql, seed_documentdb, main, tx_user_pairs_of, truncate_all,
  drop_collections,
}

-- Both databases hold what the configuration asks for, and the keys of every row are those of rows.
pub record Relational (volumes : Volumes) (w : World) : Type 0 where
  pub users : Numbered (volumes.users) (w.users)
  pub merchants : Holds IsMerchant (volumes.merchants) (w.merchants)
  pub transactions :
      Holds
        (IsPurchase (ids_of (w.users)) (ids_of (w.merchants)))
        (volumes.transactions)
        (w.transactions)
  pub repayments :
      Holds (IsPayback (tx_user_pairs_of (w.transactions))) (volumes.repayments) (w.repayments)
  pub installment_schedules :
      Holds
        (IsSchedule (tx_user_pairs_of (w.transactions)))
        (volumes.installment_schedules)
        (w.installment_schedules)

pub record Documented (volumes : Volumes) (w : World) : Type 0 where
  pub app_events :
      Collected
        (IsAppEvent (map str (ids_of (w.users))) (map str (ids_of (w.merchants))))
        (volumes.app_events)
        (w.app_events)
  pub merchant_sessions :
      Collected
        (IsMerchantSession (map str (ids_of (w.merchants))))
        (volumes.merchant_sessions)
        (w.merchant_sessions)

-- The pairs that are read back are of transactions and users that there are.
Keys-map :
    (transactions users merchants : List ℕ) (rows : List (ℕ × Purchase))
    → All (λ row. has transactions (row.0) ≡ true) rows
    → All (λ row. IsPurchase users merchants (row.1)) rows
    → All (Keys transactions users) (map (λ row. (row.0, row.1.user_id)) rows)
Keys-map transactions users merchants [] h k = tt
Keys-map transactions users merchants (row ∷ rows) (h, hs) (k, ks) =
    ((h, k.user), Keys-map transactions users merchants rows hs ks)

pairs-Keys :
    (users merchants : List ℕ) (n : ℕ) (t : Table Purchase)
    → Holds (IsPurchase users merchants) n t
    → All (Keys (ids_of t) users) (tx_user_pairs_of t)
pairs-Keys users merchants n t (same, h) =
    Keys-map (ids_of t) users merchants (t.rows)
      (All-map (λ id. has (ids_of t) id ≡ true) (λ row. row.0) (t.rows)
        (All-any ◌==◌ (ids_of t) ==_refl))
      h

some_ids :
    {R B : Type 0} (f : ℕ × R → B) (n : ℕ) (rows : List (ℕ × R))
    → length rows ≡ n
    → 0 < n
    → 0 < length (map f rows)
some_ids f n rows same h = omega (arith, length-map f rows)

-- What a configuration needs for the whole run.
pub record IsSound (volumes : Volumes) (size : ℕ) : Type 0 where
  pub size_pos : 0 < size
  pub users_pos : 0 < volumes.users
  pub merchants_pos : 0 < volumes.merchants
  pub transactions_pos : 0 < volumes.transactions

-- What the key columns of the tables need: from the next value of each table, the keys of all the rows
-- to come fit their types.
pub record HasRoom (volumes : Volumes) (w : World) : Type 0 where
  pub users : w.users.next_id + volumes.users ≤ suc max_bigint
  pub merchants : w.merchants.next_id + volumes.merchants ≤ suc max_integer
  pub transactions : w.transactions.next_id + volumes.transactions ≤ suc max_bigint
  pub repayments : w.repayments.next_id + volumes.repayments ≤ suc max_bigint
  pub installment_schedules :
      w.installment_schedules.next_id + volumes.installment_schedules ≤ suc max_bigint

module _ (drivers : Drivers) (documented : AreDocumented drivers) (draws : ℕ → ℕ)
    (volumes : Volumes) (size : ℕ) (sound : IsSound volumes size) where
  seed_postgresql_lem :
      (w : World)
      → HasRoom volumes w
      → (w' : World) × (seed_postgresql drivers draws volumes size w
          ≡ (ok (ids_of (w'.users), ids_of (w'.merchants)), w'))
        × Relational volumes w'
  unfolding seed_postgresql truncate_all pure ◌>>=◌
  seed_postgresql_lem w room =
      let (d1, t1, e1, i1) =
        users_loaded drivers documented draws size (sound.size_pos) (volumes.users) (w.drawn)
          (truncate (w.users)) (room.users) (refl, tt) in
      let (d2, t2, e2, i2) =
        merchants_loaded drivers documented draws size (sound.size_pos) (volumes.merchants) d1
          (truncate (w.merchants)) (room.merchants) (refl, tt) in
      let us = ids_of t1 in
      let ms = ids_of t2 in
      let (d3, t3, e3, i3) =
        transactions_loaded drivers documented draws size (sound.size_pos) us ms
          (volumes.transactions) d2 (truncate (w.transactions))
          (some_ids (λ row. row.0) (volumes.users) (t1.rows) (i1.0) (sound.users_pos))
          (some_ids (λ row. row.0) (volumes.merchants) (t2.rows) (i2.0) (sound.merchants_pos))
          (room.transactions) (refl, tt) in
      let pairs = tx_user_pairs_of t3 in
      let some_pairs =
        some_ids (λ row. (row.0, row.1.user_id)) (volumes.transactions) (t3.rows) (i3.0)
          (sound.transactions_pos) in
      let keys = pairs-Keys us ms (volumes.transactions) t3 i3 in
      let (d4, t4, e4, i4) =
        repayments_loaded drivers documented draws size (sound.size_pos) (ids_of t3) us pairs
          some_pairs keys (volumes.repayments) d3 (truncate (w.repayments)) (room.repayments)
          (refl, tt) in
      let (d5, t5, e5, i5) =
        schedules_loaded drivers documented draws size (sound.size_pos) (ids_of t3) us pairs
          some_pairs keys (volumes.installment_schedules) d4 (truncate (w.installment_schedules))
          (room.installment_schedules) (refl, tt) in
      (
        record w {
          drawn = d5;
          users = t1;
          merchants = t2;
          transactions = t3;
          repayments = t4;
          installment_schedules = t5;
        },
        rw (e1, e2, e3, e4, e5),
        record {
          users = i1;
          merchants = i2;
          transactions = i3;
          repayments = i4;
          installment_schedules = i5;
        },
      )

  pub main-Seeds :
      (w : World)
      → HasRoom volumes w
      → (w' : World) × (main drivers draws volumes size w ≡ (ok tt, w'))
        × Relational volumes w'
        × Documented volumes w'
  unfolding main seed_documentdb drop_collections pure ◌>>=◌
  main-Seeds w room =
      let (w1, e, r) = seed_postgresql_lem w room in
      let users = map str (ids_of (w1.users)) in
      let merchants = map str (ids_of (w1.merchants)) in
      let same_users = length-map str (ids_of (w1.users)) in
      let same_merchants = length-map str (ids_of (w1.merchants)) in
      let some_users =
        some_ids (λ row. row.0) (volumes.users) (w1.users.rows) (r.users.0) (sound.users_pos) in
      let some_merchants =
        some_ids (λ row. row.0) (volumes.merchants) (w1.merchants.rows) (r.merchants.0)
          (sound.merchants_pos) in
      let (d2, c2, e2, i2) =
        app_events_loaded drivers documented draws size (sound.size_pos) users merchants
          (omega arith) (volumes.app_events) (w1.drawn) [] (omega arith) (refl, tt) in
      let (d3, c3, e3, i3) =
        sessions_loaded drivers documented draws size (sound.size_pos) users merchants (omega arith)
          (volumes.merchant_sessions) d2 [] (refl, tt) in
      (
        record w1 { drawn = d3; app_events = c2; merchant_sessions = c3 },
        rw (e, e2, e3),
        record {
          users = r.users;
          merchants = r.merchants;
          transactions = r.transactions;
          repayments = r.repayments;
          installment_schedules = r.installment_schedules;
        },
        record { app_events = i2; merchant_sessions = i3 },
      )
