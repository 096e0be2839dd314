-- ===== src/Seed.antt =====
-- scripts/seed_data.py: the generator of the seed data. A run is an action on the numbers drawn and
-- the two databases. The configuration is an argument: the volumes and the size of the batches.
pub mod Random
pub mod Ranges
pub mod Options
pub mod Rows
pub mod Tables
pub mod Documents
pub mod Batching
pub mod Kinds
pub mod Conformity
pub mod Filling
pub mod Taking
pub mod Events
pub mod Loading
pub mod Seeding
use paystream.Base.{ℕ, Bool, List, [], ◌∷◌, map, Option, length}
use paystream.Base.Task.{Result, ok, raised}
use paystream.Base.Action.{Act, pure, gets, ◌>>=◌, ◌>>◌}
use paystream.Base.Numeral.{Text, str}
use paystream.Seed.Rows.{
  User, Merchant, Purchase, Payback, Schedule, gen_users, gen_merchants, gen_transactions,
  gen_repayments, gen_installment_schedules,
}
use paystream.Seed.Tables.{
  Table, takes_user, takes_merchant, takes_transaction, takes_repayment, takes_schedule, truncate,
  serial, max_integer, max_bigint, Drivers, ids_of,
}
use paystream.Seed.Documents.{AppEvent, MerchantSession, gen_app_events, gen_merchant_sessions}
use paystream.Seed.Batching.{batch_iter}

pub record Volumes : Type 0 where
  pub users : ℕ
  pub merchants : ℕ
  pub transactions : ℕ
  pub repayments : ℕ
  pub installment_schedules : ℕ
  pub app_events : ℕ
  pub merchant_sessions : ℕ

pub record World : Type 0 where
  pub drawn : ℕ
  pub users : Table User
  pub merchants : Table Merchant
  pub transactions : Table Purchase
  pub repayments : Table Payback
  pub installment_schedules : Table Schedule
  pub app_events : List AppEvent
  pub merchant_sessions : List MerchantSession

abbrev pub Step : Type 0 → Type 0
Step T = Act (ℕ × T) (Unit {0})

-- Rows are generated, and then inserted.
abbrev pub then_insert :
    {T R : Type 0}
    → Result (List R) × ℕ
    → (List R → Act T (Unit {0}))
    → T
    → Result (Unit {0}) × (ℕ × T)
then_insert (raised e, drawn) put t = (raised e, (drawn, t))
then_insert (ok rows, drawn) put t = let (r, t') = put rows t in (r, (drawn, t'))

abbrev pub load : {T R : Type 0} → Act ℕ (List R) → (List R → Act T (Unit {0})) → Step T
load gen put (drawn, t) = then_insert (gen drawn) put t

-- `for off, cnt in ...`
unfoldable pub load_all :
    {T R : Type 0} → (ℕ → ℕ → Act ℕ (List R)) → (List R → Act T (Unit {0})) → List (ℕ × ℕ) → Step T
load_all gen put [] = pure tt
load_all gen put ((off, cnt) ∷ batches) =
    let later = load_all gen put batches in load (gen off cnt) put >> later

abbrev pub or_raise : {T : Type 0} → Result (List (ℕ × ℕ)) → (List (ℕ × ℕ) → Step T) → Step T
or_raise (raised e) f s = (raised e, s)
or_raise (ok batches) f s = f batches s

-- `for off, cnt in batch_iter(total, size)`
unfoldable pub load_batches :
    {T R : Type 0} → (ℕ → ℕ → Act ℕ (List R)) → (List R → Act T (Unit {0})) → ℕ → ℕ → Step T
unfolding load_all
load_batches gen put total size = or_raise (batch_iter total size) (load_all gen put)

abbrev pub on_users : Step (Table User) → Act World (Unit {0})
on_users m w = let (r, (n, t)) = m (w.drawn, w.users) in (r, record w { drawn = n; users = t })

abbrev pub on_merchants : Step (Table Merchant) → Act World (Unit {0})
on_merchants m w =
    let (r, (n, t)) = m (w.drawn, w.merchants) in (r, record w { drawn = n; merchants = t })

abbrev pub on_transactions : Step (Table Purchase) → Act World (Unit {0})
on_transactions m w =
    let (r, (n, t)) = m (w.drawn, w.transactions) in (r, record w { drawn = n; transactions = t })

abbrev pub on_repayments : Step (Table Payback) → Act World (Unit {0})
on_repayments m w =
    let (r, (n, t)) = m (w.drawn, w.repayments) in (r, record w { drawn = n; repayments = t })

abbrev pub on_schedules : Step (Table Schedule) → Act World (Unit {0})
on_schedules m w =
    let (r, (n, t)) = m (w.drawn, w.installment_schedules) in
    (r, record w { drawn = n; installment_schedules = t })

abbrev pub on_app_events : Step (List AppEvent) → Act World (Unit {0})
on_app_events m w =
    let (r, (n, t)) = m (w.drawn, w.app_events) in (r, record w { drawn = n; app_events = t })

abbrev pub on_merchant_sessions : Step (List MerchantSession) → Act World (Unit {0})
on_merchant_sessions m w =
    let (r, (n, t)) = m (w.drawn, w.merchant_sessions) in
    (r, record w { drawn = n; merchant_sessions = t })

truncate_all : Act World (Unit {0})
truncate_all w = (
  ok tt,
  record w {
    users = truncate (w.users);
    merchants = truncate (w.merchants);
    transactions = truncate (w.transactions);
    repayments = truncate (w.repayments);
    installment_schedules = truncate (w.installment_schedules);
  },
)

-- `SELECT transaction_id, user_id FROM transactions`
abbrev pub tx_user_pairs_of : Table Purchase → List (ℕ × ℕ)
tx_user_pairs_of t = map (λ row. (row.0, row.1.user_id)) (t.rows)

module _ (drivers : Drivers) (draws : ℕ → ℕ) (volumes : Volumes) (batch_size : ℕ) where
  unfoldable pub seed_postgresql : Act World (List ℕ × List ℕ)
  unfolding truncate_all load_batches
  seed_postgresql = do
    truncate_all
    on_users (
        load_batches (λ off cnt. gen_users draws cnt off)
          (drivers.execute_values User (serial max_bigint takes_user)) (volumes.users) batch_size)
    user_ids ← gets (λ w. ids_of (w.users))
    on_merchants (
        load (gen_merchants draws (volumes.merchants))
          (drivers.execute_values Merchant (serial max_integer takes_merchant)))
    merchant_ids ← gets (λ w. ids_of (w.merchants))
    on_transactions (
        load_batches (λ off cnt. gen_transactions draws cnt user_ids merchant_ids)
          (drivers.execute_values Purchase
            (serial max_bigint (takes_transaction user_ids merchant_ids)))
          (volumes.transactions) batch_size)
    tx_user_pairs ← gets (λ w. tx_user_pairs_of (w.transactions))
    tx_ids ← gets (λ w. ids_of (w.transactions))
    on_repayments (
        load_batches (λ off cnt. gen_repayments draws cnt tx_user_pairs)
          (drivers.execute_values Payback (serial max_bigint (takes_repayment tx_ids user_ids)))
          (volumes.repayments) batch_size)
    on_schedules (
        load_batches (λ off cnt. gen_installment_schedules draws cnt tx_user_pairs)
          (drivers.execute_values Schedule (serial max_bigint (takes_schedule tx_ids user_ids)))
          (volumes.installment_schedules) batch_size)
    pure (user_ids, merchant_ids)

  drop_collections : Act World (Unit {0})
  drop_collections w = (ok tt, record w { app_events = []; merchant_sessions = [] })

  unfoldable pub seed_documentdb : List ℕ → List ℕ → Act World (Unit {0})
  unfolding drop_collections load_batches
  seed_documentdb user_ids merchant_ids = do
    let user_ids_str = map str user_ids
    let merchant_ids_str = map str merchant_ids
    drop_collections
    on_app_events (
        load_batches (λ off cnt. gen_app_events draws cnt user_ids_str merchant_ids_str)
          (drivers.insert_many AppEvent) (volumes.app_events) batch_size)
    on_merchant_sessions (
        load_batches (λ off cnt. gen_merchant_sessions draws cnt merchant_ids_str)
          (drivers.insert_many MerchantSession) (volumes.merchant_sessions) batch_size)

  unfoldable pub main : Act World (Unit {0})
  unfolding seed_postgresql seed_documentdb
  main = do ids ← seed_postgresql; seed_documentdb (ids.0) (ids.1)
