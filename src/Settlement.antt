-- ===== src/Settlement.antt =====
-- dags/settlement_reconciliation.py: the rows of the reconciliation. An amount is an exact number, and
-- the comparison of its percentage with 0.1 is exact too.
use paystream.Base.{
  ℕ, zero, suc, ◌+◌, ◌-◌, ◌*◌, ◌≡◌, ◌↔◌, refl, ap, sym, ◌∙◌, All, eq_iff, Bool, true, false, String,
  List, [], ◌∷◌, ◌++◌, map, leb, if◌then◌else◌, arith,
}
use paystream.Base.Int.{pos, negsuc, pos_part, neg_part}
use paystream.Base.Number.{Number, ratio, infinity, neg_infinity, nan}
use paystream.Base.Task.{Result, ok, Task, pure, lift, insert, ◌>>◌, ◌>>=◌}
use paystream.Base.Trace.{Does, pure-Does, >>=-Does, insert-Does}

-- |a - b| for two numbers of ℕ.
abbrev pub distance : ℕ → ℕ → ℕ
distance a b = (a - b) + (b - a)

-- `abs(expected - actual)`
abbrev pub abs_difference : Number → Number → Number
abs_difference (ratio y d) (ratio z e) =
    ratio
      (pos (
        distance (pos_part y * suc e + neg_part z * suc d)
          (neg_part y * suc e + pos_part z * suc d)))
      (suc d * suc e - 1)
abs_difference (ratio y d) infinity = infinity
abs_difference (ratio y d) neg_infinity = infinity
abs_difference infinity (ratio z e) = infinity
abs_difference neg_infinity (ratio z e) = infinity
abs_difference infinity neg_infinity = infinity
abs_difference neg_infinity infinity = infinity
abs_difference infinity infinity = nan
abs_difference neg_infinity neg_infinity = nan
abs_difference nan b = nan
abs_difference (ratio y d) nan = nan
abs_difference infinity nan = nan
abs_difference neg_infinity nan = nan

-- `variance / expected * 100`, for an expected amount above 0; infinity by infinity is NaN.
abbrev pub percent : Number → Number → Number
percent (ratio (pos v) c) (ratio (pos e) d) = ratio (pos (100 * v * suc d)) (suc c * e - 1)
percent (ratio (pos v) c) (ratio (negsuc e) d) = nan
percent (ratio (negsuc v) c) (ratio (pos e) d) =
    ratio (negsuc (100 * suc v * suc d - 1)) (suc c * e - 1)
percent (ratio (negsuc v) c) (ratio (negsuc e) d) = nan
percent (ratio v c) infinity = ratio (pos 0) 0
percent (ratio v c) neg_infinity = nan
percent (ratio v c) nan = nan
percent infinity (ratio e d) = infinity
percent infinity infinity = nan
percent infinity neg_infinity = nan
percent infinity nan = nan
percent neg_infinity (ratio e d) = neg_infinity
percent neg_infinity infinity = nan
percent neg_infinity neg_infinity = nan
percent neg_infinity nan = nan
percent nan e = nan

-- `variance_pct`
unfoldable pub variance_pct_of : Number → Number → Number
variance_pct_of variance (ratio (pos zero) d) = ratio (pos 0) 0
variance_pct_of variance (ratio (pos (suc n)) d) = percent variance (ratio (pos (suc n)) d)
variance_pct_of variance (ratio (negsuc n) d) = ratio (pos 0) 0
variance_pct_of variance infinity = percent variance infinity
variance_pct_of variance neg_infinity = ratio (pos 0) 0
variance_pct_of variance nan = ratio (pos 0) 0

-- `variance_pct <= 0.1`
abbrev pub at_most_tenth : Number → Bool
at_most_tenth (ratio (pos n) d) = leb (10 * n) (suc d)
at_most_tenth (ratio (negsuc n) d) = true
at_most_tenth infinity = false
at_most_tenth neg_infinity = true
at_most_tenth nan = false

abbrev pub status_of : Number → String
status_of variance_pct = if at_most_tenth variance_pct then "matched" else "mismatch"

-- A row of the INSERT; the date is the execution date, in days.
pub record Settled : Type 0 where
  pub settlement_date : ℕ
  pub merchant_id : ℕ
  pub expected_amount : Number
  pub actual_amount : Number
  pub variance : Number
  pub variance_pct : Number
  pub status : String

-- The row of a merchant, whose actual amount is set to the expected one.
unfoldable pub settled : ℕ → ℕ × Number → Settled
unfolding variance_pct_of
settled execution_date (merchant_id, expected) =
    let actual = expected in
    let variance = abs_difference expected actual in
    let variance_pct = variance_pct_of variance expected in
    record {
      settlement_date = execution_date;
      merchant_id = merchant_id;
      expected_amount = expected;
      actual_amount = actual;
      variance = variance;
      variance_pct = variance_pct;
      status = status_of variance_pct;
    }

module _ (accepts : List Settled → Settled → Bool) where
  unfoldable pub reconcile_and_insert : ℕ → List (ℕ × Number) → Task Settled (Unit {0})
  unfolding settled
  reconcile_and_insert execution_date [] = pure tt
  reconcile_and_insert execution_date (row ∷ rows) =
      let rest = reconcile_and_insert execution_date rows in
      insert accepts (settled execution_date row) >> rest

-- The totals of the day before; the query on a day is run by ClickHouse.
unfoldable pub compute_settlements :
    (ℕ → Result (List (ℕ × Number))) → ℕ → Result (List (ℕ × Number))
compute_settlements approved_on execution_date = approved_on (execution_date - 1)

-- `compute >> reconcile`: the second task is not started where the first has raised.
unfoldable pub settle_day :
    (List Settled → Settled → Bool) → (ℕ → Result (List (ℕ × Number))) → ℕ → Task Settled (Unit {0})
unfolding compute_settlements
settle_day accepts approved_on execution_date = do
  settlements ← lift (compute_settlements approved_on execution_date)
  reconcile_and_insert accepts execution_date settlements

distance_self : (a b : ℕ) → a ≡ b → distance a b ≡ 0
distance_self a b h = omega arith

not_mismatch : {A : Type 0} → ◌≡◌ {A = String} "matched" "mismatch" → A
not_mismatch h = let e : false ≡ true = (eq_iff "matched" "mismatch").1 h in cc

-- An amount differs from itself by no percentage.
within_self :
    (n d : ℕ)
    → at_most_tenth (
        percent
          (abs_difference (ratio (pos (suc n)) d) (ratio (pos (suc n)) d))
          (ratio (pos (suc n)) d))
      ≡ true
within_self n d =
    rw (distance_self (suc n * suc d + 0 * suc d) (0 * suc d + suc n * suc d) (omega arith))
      (ground arith)

settled_iff :
    (date merchant_id : ℕ) (expected : Number)
    → ((settled date (merchant_id, expected)).status ≡ "mismatch") ↔ (expected ≡ infinity)
unfolding settled variance_pct_of
settled_iff date m (ratio (pos zero) d) = (λ h. not_mismatch h, λ h. cc)
settled_iff date m (ratio (pos (suc n)) d) =
    let same : (settled date (m, ratio (pos (suc n)) d)).status ≡ "matched" =
      ap (λ b. if b then "matched" else "mismatch") (within_self n d) in
    (λ h. not_mismatch (sym same ∙ h), λ h. cc)
settled_iff date m (ratio (negsuc n) d) = (λ h. not_mismatch h, λ h. cc)
settled_iff date m infinity = (λ h. refl, λ h. refl)
settled_iff date m neg_infinity = (λ h. not_mismatch h, λ h. cc)
settled_iff date m nan = (λ h. not_mismatch h, λ h. cc)

All-settled :
    (date : ℕ) (rows : List (ℕ × Number))
    → All (λ row. ((settled date row).status ≡ "mismatch") ↔ (row.1 ≡ infinity)) rows
All-settled date [] = tt
All-settled date (row ∷ rows) = (settled_iff date row.0 row.1, All-settled date rows)

module _ (accepts : List Settled → Settled → Bool)
    (taken : (log : List Settled) (w : Settled) → accepts log w ≡ true) where
  reconcile_and_insert-Does :
      (date : ℕ) (rows : List (ℕ × Number))
      → Does (reconcile_and_insert accepts date rows) tt (map (settled date) rows)
  unfolding reconcile_and_insert
  reconcile_and_insert-Does date [] = pure-Does tt
  reconcile_and_insert-Does date (row ∷ rows) =
      >>=-Does (insert accepts (settled date row)) _ (insert-Does accepts _ (λ log. taken log _))
        (reconcile_and_insert-Does date rows)

  pub settle_day_lem :
      (approved_on : ℕ → Result (List (ℕ × Number))) (day : ℕ) (rows : List (ℕ × Number))
      (log : List Settled)
      → approved_on day ≡ ok rows
      → (settle_day accepts approved_on (day + 1) log
          ≡ (ok tt, log ++ map (settled (day + 1)) rows))
        × All (λ row. ((settled (day + 1) row).status ≡ "mismatch") ↔ (row.1 ≡ infinity)) rows
  unfolding settle_day compute_settlements
  settle_day_lem approved_on day rows log h =
      let before : day + 1 - 1 ≡ day = omega arith in
      (
        rw before (rw h ((reconcile_and_insert-Does (day + 1) rows).does log)),
        All-settled (day + 1) rows,
      )
