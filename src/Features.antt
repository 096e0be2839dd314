-- ===== src/Features.antt =====
-- A row of the feature store as the API reads it, and `FeatureValues` of api/feature_store/models.py.
-- A row is the dict of its columns, a later column of one name winning. pydantic is outside, as the
-- record `Pydantic`. `float(str)` is the parameter `float_of`, `none` where it raises.
pub mod Ranges
use paystream.Base.{
  ◌≡◌, ℕ, suc, ◌%◌, Bool, true, false, not, ◌&&◌, ◌||◌, String, List, [], ◌∷◌, Option, none, some,
  str_eq, any, all, if◌then◌else◌, ◌==◌,
}
use paystream.Base.Int.{ℤ, abs}
use paystream.Base.Number.{Number, ratio, Value, null, number, text, is_negative, exceeds_one}

abbrev pub Row : Type 0
Row = List (String × Value)

-- `dict.get(name)`
unfoldable pub lookup : String → Row → Option Value
lookup name [] = none
lookup name ((column, value) ∷ row) =
    let later = lookup name row in
    elim later [ some v ↦ some v | none ↦ if str_eq column name then some value else none ]

pub data Kind : Type 0 where
  count : Kind  -- `int = Field(ge=0)`
  amount : Kind  -- `float = Field(ge=0)`
  rate : Kind  -- `float = Field(ge=0, le=1)`

abbrev pub fields : List (String × Kind)
fields =
    ("tx_velocity_7d", count)
    ∷ ("tx_velocity_30d", count)
    ∷ ("avg_tx_amount_30d", amount)
    ∷ ("repayment_rate_90d", rate)
    ∷ ("merchant_diversity_30d", count)
    ∷ ("declined_rate_7d", rate)
    ∷ ("active_installments", count)
    ∷ ("days_since_first_tx", count)
    ∷ []

-- An `int` field takes a float only if it is a whole number.
is_whole : Number → Bool
is_whole (ratio z d) = abs z % suc d == 0
is_whole _ = false

-- What the declarations say of a finite number.
unfoldable pub in_range : Kind → Number → Bool
unfolding is_whole
in_range count x = is_whole x && not (is_negative x)
in_range amount x = not (is_negative x)
in_range rate x = not (is_negative x) && not (exceeds_one x)

-- pydantic's verdict on a number in a field of a kind. It goes by the declaration where the number is
-- finite; what it does with infinities and NaN is left open.
pub record Pydantic : Type 0 where
  pub accepts : Kind → Number → Bool
  pub finite_exact :
      (kind : Kind) (z : ℤ) (d : ℕ) → accepts kind (ratio z d) ≡ in_range kind (ratio z d)

is_present : Option Value → Bool
is_present none = false
is_present (some v) = true

module _ (float_of : String → Option Number) where
  -- `coerce_numeric`, which runs before pydantic's own checks; `none` is its ValueError.
  unfoldable pub coerce_numeric : Value → Option Number
  coerce_numeric null = none
  coerce_numeric (number x) = some x
  coerce_numeric (text s) = float_of s

module _ (py : Pydantic) (float_of : String → Option Number) where
  unfoldable pub check : Kind → Option Value → Bool
  check kind none = false
  check kind (some value) = elim (coerce_numeric float_of value) [
    | none ↦ false
    | some x ↦ py.accepts kind x
  ]

  unfoldable pub check_all : List (String × Kind) → Row → Bool
  unfolding check
  check_all [] row = true
  check_all ((name, kind) ∷ rest) row = check kind (lookup name row) && check_all rest row

  -- Whether `FeatureValues(**features)` raises no ValidationError: `snapshot_ts` is required, of any
  -- type; each feature is required and in range; other keys are allowed.
  unfoldable pub is_valid : Row → Bool
  unfolding is_present check_all
  is_valid row = is_present (lookup "snapshot_ts" row) && check_all fields row
