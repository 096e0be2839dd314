-- ===== src/Seed/Tables.antt =====
-- The tables that `PG_DDL` of scripts/seed_data.py creates, with the constraints that it declares on
-- the columns that the script inserts, and the statements that the script sends to them. A `BIGSERIAL`
-- key goes on from its last value after a `TRUNCATE`.
use paystream.Base.{
  ℕ, suc, ◌^◌, ◌<◌, ◌≡◌, Bool, not, ◌&&◌, List, [], ◌∷◌, ◌++◌, map, Option, none, some, ltb, leb,
  ◌==◌, any, all, length, if◌then◌else◌,
}
use paystream.Base.Task.{ok}
use paystream.Base.Action.{Act}
use paystream.Base.Numeral.{Text, text_eq}
use paystream.Seed.Rows.{User, Merchant, Purchase, Payback, Schedule}

pub record Table (R : Type 0) : Type 0 where
  pub rows : List (ℕ × R)
  pub next_id : ℕ

-- `VARCHAR(n)`
abbrev pub fits : ℕ → Text → Bool
fits n t = leb (length t) n

-- `DECIMAL(digits, places)` of a positive number in units of its last place, and `SMALLINT`.
abbrev pub is_decimal : ℕ → ℕ → Bool
is_decimal digits n = ltb n (10 ^ digits)

abbrev pub is_smallint : ℕ → Bool
is_smallint n = leb n 32767

abbrev pub has : List ℕ → ℕ → Bool
has ids id = any (λ i. i == id) ids

abbrev pub ids_of : {R : Type 0} → Table R → List ℕ
ids_of t = map (λ row. row.0) (t.rows)

-- The table `users`, whose emails are UNIQUE.
unfoldable pub takes_user : Table User → User → Bool
takes_user t u =
    all (λ b. b)
      (fits 100 (u.full_name)
        ∷ fits 150 (u.email)
        ∷ fits 20 (u.phone)
        ∷ fits 20 (u.national_id)
        ∷ is_decimal 12 (u.credit_limit)
        ∷ fits 20 (u.credit_tier)
        ∷ fits 20 (u.kyc_status)
        ∷ not (any (λ row. text_eq (row.1.email) (u.email)) (t.rows))
        ∷ [])

unfoldable pub takes_merchant : Table Merchant → Merchant → Bool
takes_merchant t m =
    all (λ b. b)
      (fits 200 (m.merchant_name)
        ∷ fits 50 (m.merchant_category)
        ∷ fits 20 (m.risk_tier)
        ∷ is_decimal 5 (m.commission_rate)
        ∷ is_decimal 15 (m.credit_limit)
        ∷ fits 3 (m.country)
        ∷ [])

-- The keys are those of the users and the merchants that there are. They fit their columns, since the
-- key of `users` is a BIGSERIAL for a BIGINT and that of `merchants` a SERIAL for an INTEGER.
unfoldable pub takes_transaction : List ℕ → List ℕ → Table Purchase → Purchase → Bool
takes_transaction users merchants t p =
    all (λ b. b)
      (has users (p.user_id)
        ∷ has merchants (p.merchant_id)
        ∷ is_decimal 12 (p.amount)
        ∷ fits 3 (p.currency)
        ∷ fits 20 (p.status)
        ∷ is_smallint (p.decision_latency_ms)
        ∷ is_smallint (p.installment_count)
        ∷ [])

unfoldable pub takes_repayment : List ℕ → List ℕ → Table Payback → Payback → Bool
takes_repayment transactions users t p =
    all (λ b. b)
      (has transactions (p.transaction_id)
        ∷ has users (p.user_id)
        ∷ is_smallint (p.installment_number)
        ∷ is_decimal 12 (p.amount)
        ∷ fits 20 (p.status)
        ∷ [])

unfoldable pub takes_schedule : List ℕ → List ℕ → Table Schedule → Schedule → Bool
takes_schedule transactions users t s =
    all (λ b. b)
      (has transactions (s.transaction_id)
        ∷ has users (s.user_id)
        ∷ is_decimal 12 (s.total_amount)
        ∷ is_smallint (s.installment_count)
        ∷ is_decimal 12 (s.installment_amount)
        ∷ fits 20 (s.status)
        ∷ [])

-- The largest INTEGER and the largest BIGINT.
abbrev pub max_integer : ℕ
max_integer = 2147483647

abbrev pub max_bigint : ℕ
max_bigint = 9223372036854775807

-- A table with a SERIAL or a BIGSERIAL key, whose next value must fit its type.
abbrev pub serial : {R : Type 0} → ℕ → (Table R → R → Bool) → Table R → R → Bool
serial limit takes t r = leb (t.next_id) limit && takes t r

abbrev pub truncate : {R : Type 0} → Table R → Table R
truncate t = record t { rows = [] }

module _ {R : Type 0} (takes : Table R → R → Bool) where
  -- The rows of one statement.
  unfoldable pub add : List R → Table R → Option (Table R)
  add [] t = some t
  add (r ∷ rs) t =
      let added =
        add rs (record { rows = t.rows ++ (t.next_id, r) ∷ []; next_id = suc (t.next_id) }) in
      if takes t r then added else none

-- The drivers of the databases, psycopg2 and pymongo: `execute_values` for a table with its
-- constraints, and `insert_many` for a collection.
pub record Drivers : Type 1 where
  pub execute_values : (R : Type 0) → (Table R → R → Bool) → List R → Act (Table R) (Unit {0})
  pub insert_many : (D : Type 0) → List D → Act (List D) (Unit {0})

-- Rows that the constraints allow, each after those before it, are added with the next keys; documents
-- are added at the end, if there are any.
pub record AreDocumented (drivers : Drivers) : Type 1 where
  pub executes :
      (R : Type 0) (takes : Table R → R → Bool) (rows : List R) (t t' : Table R)
      → add takes rows t ≡ some t'
      → drivers.execute_values R takes rows t ≡ (ok tt, t')
  pub inserts :
      (D : Type 0) (ds c : List D) → 0 < length ds → drivers.insert_many D ds c ≡ (ok tt, c ++ ds)
