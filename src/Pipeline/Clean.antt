-- ===== src/Pipeline/Clean.antt =====
-- What a row that the gate keeps holds, column by column.
use paystream.Base.{
  and-eq-true, ◌≡◌, ◌⊎◌, inl, inr, Bool, true, false, not, String, List, [], ◌∷◌, none, some, All,
  filter, arith, Option-cases, Bool-cases,
}
use paystream.Base.Number.{Number, Value, is_negative}
use paystream.Base.Task.{Result, ok, Result-cases}
use paystream.Features.{Row}
use paystream.Pipeline.{
  Write, Parsers, feature_columns, non_negative_columns, rate_columns, get, has_null, out_of_range,
  outside_rate, to_float, validate_features,
}
use paystream.Pipeline.Gate.{
  hits, passes, nulls, negatives, bad_rates, Decides, validate_features_lem,
}

abbrev pub IsFilled : Row → String → Type 0
IsFilled row col = (v : Value) × (get row col ≡ some v)

has_null-IsFilled :
    (cols : List String) (row : Row) → has_null cols row ≡ ok false → All (IsFilled row) cols
unfolding has_null
has_null-IsFilled [] row h = tt
has_null-IsFilled (col ∷ cols) row h = elim (Option-cases (get row col)) [
  | inl missing ↦ ground arith
  | inr found ↦ (found, has_null-IsFilled cols row (ground arith))
]

module _ (parsers : Parsers) where
  -- A value, if there is one, is a number on which the test fails.
  abbrev pub Avoids : (Number → Bool) → Row → String → Type 0
  Avoids bad row col =
      (get row col ≡ none)
      ⊎ ((v : Value) × (x : Number) × (get row col ≡ some v)
          × (to_float parsers v ≡ ok x)
          × (bad x ≡ false))

  out_of_range-Avoids :
      (bad : Number → Bool) (cols : List String) (row : Row)
      → out_of_range parsers bad cols row ≡ ok false
      → All (Avoids bad row) cols
  unfolding out_of_range
  out_of_range-Avoids bad [] row h = tt
  out_of_range-Avoids bad (col ∷ cols) row h = elim (Option-cases (get row col)) [
    | inl missing ↦ (inl missing, out_of_range-Avoids bad cols row (ground arith))
    | inr (v, found) ↦ elim (Result-cases (to_float parsers v)) [
      | inr (e, fails) ↦ ground arith
      | inl (x, number) ↦ elim (Bool-cases (bad x)) [
        | inl hit ↦ ground arith
        | inr clear ↦
            (inr (v, x, found, number, clear), out_of_range-Avoids bad cols row (ground arith))
      ]
    ]
  ]

  -- The row has a value in each feature column; no count or amount is negative, and no rate is
  -- below 0 or above 1.
  pub record IsClean (row : Row) : Type 0 where
    pub filled : All (IsFilled row) feature_columns
    pub non_negative : All (Avoids is_negative row) non_negative_columns
    pub rates : All (Avoids outside_rate row) rate_columns

  decided_clear :
      (test : Row → Result Bool) (row : Row)
      → (b : Bool) × (test row ≡ ok b)
      → not (hits test row) ≡ true
      → test row ≡ ok false
  decided_clear test row (b, e) h = ground arith

  clean :
      (row : Row)
      → (b : Bool) × (nulls row ≡ ok b)
      → (b : Bool) × (negatives parsers row ≡ ok b)
      → (b : Bool) × (bad_rates parsers row ≡ ok b)
      → passes parsers row ≡ true
      → IsClean row
  clean row d1 d2 d3 h =
      let (first, others) = and-eq-true _ _ h in
      let (second, third) = and-eq-true _ _ others in
      record {
        filled = has_null-IsFilled feature_columns row (decided_clear nulls row d1 first);
        non_negative =
            out_of_range-Avoids is_negative non_negative_columns row
              (decided_clear (negatives parsers) row d2 second);
        rates =
            out_of_range-Avoids outside_rate rate_columns row
              (decided_clear (bad_rates parsers) row d3 third);
      }

  passes-IsClean :
      (rows : List Row)
      → Decides nulls rows
      → Decides (negatives parsers) rows
      → Decides (bad_rates parsers) rows
      → All IsClean (filter (passes parsers) rows)
  passes-IsClean [] d1 d2 d3 = tt
  passes-IsClean (row ∷ rows) d1 d2 d3 =
      let rest = passes-IsClean rows d1.1 d2.1 d3.1 in
      elim (Bool-cases (passes parsers row)) [
        | inl good ↦ rw good (clean row d1.0 d2.0 d3.0 good, rest)
        | inr bad ↦ rw bad rest
      ]

  -- Every row that a validation returns is clean.
  pub validate_features-IsClean :
      (accepts : List Write → Write → Bool) (rows valid : List Row) (log log' : List Write)
      → validate_features parsers accepts rows log ≡ (ok valid, log')
      → All IsClean valid
  validate_features-IsClean accepts rows valid log log' h =
      let done = validate_features_lem parsers accepts rows valid log log' h in
      rw done.kept (passes-IsClean rows done.decided.0 done.decided.1 done.decided.2)
