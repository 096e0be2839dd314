-- ===== src/Pipeline/Checks.antt =====
-- The checks of `validate_features` of dags/utils/compute_features.py on one row, and the loop that
-- runs a check over the rows. `float(str)` and `int(str)` are parameters, `none` where they raise.
use paystream.Base.{
  ℕ, ◌+◌, Bool, true, false, ◌||◌, String, List, [], ◌∷◌, Option, none, some, if◌then◌else◌,
}
use paystream.Base.Int.{ℤ, ltb_ℤ, pos}
use paystream.Base.Number.{
  Number, ratio, Value, null, number, text, is_negative, exceeds_one, truncate,
}
use paystream.Base.Task.{Result, ok, raised, value_error, type_error}
use paystream.Features.{Row, lookup}

abbrev pub feature_columns : List String
feature_columns =
    "tx_velocity_7d" ∷ "tx_velocity_30d" ∷ "avg_tx_amount_30d" ∷ "merchant_diversity_30d"
    ∷ "declined_rate_7d" ∷ "repayment_rate_90d" ∷ "active_installments" ∷ "days_since_first_tx" ∷ []

abbrev pub non_negative_columns : List String
non_negative_columns =
    "tx_velocity_7d" ∷ "tx_velocity_30d" ∷ "avg_tx_amount_30d" ∷ "merchant_diversity_30d"
    ∷ "active_installments" ∷ "days_since_first_tx" ∷ []

abbrev pub rate_columns : List String
rate_columns = "declined_rate_7d" ∷ "repayment_rate_90d" ∷ []

-- `f.get(col)`, where None and a missing key are one.
unfoldable pub get : Row → String → Option Value
get row col = elim (lookup col row) [
  | none ↦ none
  | some v ↦ elim v [ null ↦ none | number x ↦ some (number x) | text s ↦ some (text s) ]
]

-- The two conversions of Python's text to numbers.
pub record Parsers : Type 0 where
  pub float_of : String → Option Number
  pub int_of : String → Option ℤ

or_value_error : {A : Type 0} → Option A → Result A
or_value_error none = raised value_error
or_value_error (some a) = ok a

-- A loop over the rows with `count += 1; invalid_indices.add(i)` where the test holds. The set of
-- invalid indices is a mark beside each row.
unfoldable pub sweep : (Row → Result Bool) → List (Row × Bool) → Result (ℕ × List (Row × Bool))
sweep test [] = ok (0, [])
sweep test ((row, invalid) ∷ rows) =
    let rest = sweep test rows in
    elim (test row) [
      | raised e ↦ raised e
      | ok hit ↦ elim rest [
        | raised e ↦ raised e
        | ok counted ↦
            ok (if hit then counted.0 + 1 else counted.0, (row, hit || invalid) ∷ counted.1)
      ]
    ]

-- Check 1: the first column with no value ends the loop over the columns.
unfoldable pub has_null : List String → Row → Result Bool
has_null [] row = ok false
has_null (col ∷ cols) row =
    let rest = has_null cols row in elim (get row col) [ none ↦ ok true | some v ↦ rest ]

abbrev pub outside_rate : Number → Bool
outside_rate x = is_negative x || exceeds_one x

-- `f.get(name, 0)`: 0 for a missing key, and None for None.
unfoldable pub get_or_zero : Row → String → Option Value
get_or_zero row col = elim (lookup col row) [
  | none ↦ some (number (ratio (pos 0) 0))
  | some v ↦ elim v [ null ↦ none | number x ↦ some (number x) | text s ↦ some (text s) ]
]

module _ (parsers : Parsers) where
  -- `float(val)`
  unfoldable pub to_float : Value → Result Number
  unfolding or_value_error
  to_float null = raised type_error
  to_float (number x) = ok x
  to_float (text s) = or_value_error (parsers.float_of s)

  -- `int(val)`
  unfoldable pub to_int : Value → Result ℤ
  unfolding or_value_error
  to_int null = raised type_error
  to_int (number x) = or_value_error (truncate x)
  to_int (text s) = or_value_error (parsers.int_of s)

  -- Checks 2 and 3: the first value out of range ends the loop over the columns.
  unfoldable pub out_of_range : (Number → Bool) → List String → Row → Result Bool
  unfolding to_float
  out_of_range bad [] row = ok false
  out_of_range bad (col ∷ cols) row =
      let rest = out_of_range bad cols row in
      elim (get row col) [
        | none ↦ rest
        | some v ↦ elim (to_float v) [
          | raised e ↦ raised e
          | ok x ↦ if bad x then ok true else rest
        ]
      ]

  -- Check 4, `int(v30) < int(v7)`.
  unfoldable pub misordered : Row → Result Bool
  unfolding get_or_zero to_int
  misordered row = elim (get_or_zero row "tx_velocity_7d") [
    | none ↦ ok false
    | some v7 ↦ elim (get_or_zero row "tx_velocity_30d") [
      | none ↦ ok false
      | some v30 ↦ elim (to_int v30) [
        | raised e ↦ raised e
        | ok b ↦ elim (to_int v7) [ raised e ↦ raised e | ok a ↦ ok (ltb_ℤ b a) ]
      ]
    ]
  ]
