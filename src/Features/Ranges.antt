-- ===== src/Features/Ranges.antt =====
-- What a row that passed `FeatureValues` holds.
use mathlib.Core.Bool.{false≢true}
use paystream.Base.{
  Option-cases, ◌≡◌, refl, inl, inr, true, String, List, [], ◌∷◌, Option, none, some, All, sym, ◌∙◌,
  and-eq-true,
}
use paystream.Base.Number.{Number, ratio, Value}
use paystream.Features.{
  Row, lookup, Kind, fields, Pydantic, in_range, coerce_numeric, check, check_all, is_valid,
}

-- The declared range of a field, for a number that is finite.
abbrev pub FitsRange : Kind → Number → Type 0
FitsRange kind (ratio z d) = in_range kind (ratio z d) ≡ true
FitsRange kind _ = Unit {0}

module _ (py : Pydantic) (float_of : String → Option Number) where
  -- The field is there, it is not NULL, and it is a number of its range.
  abbrev pub Holds : Row → String × Kind → Type 0
  Holds row (name, kind) =
      (value : Value) × (x : Number) × (lookup name row ≡ some value)
      × (coerce_numeric float_of value ≡ some x)
      × FitsRange kind x

  accepted-FitsRange : (kind : Kind) (x : Number) → py.accepts kind x ≡ true → FitsRange kind x
  accepted-FitsRange kind (ratio z d) h = sym (py.finite_exact kind z d) ∙ h
  accepted-FitsRange kind Number.infinity h = tt
  accepted-FitsRange kind Number.neg_infinity h = tt
  accepted-FitsRange kind Number.nan h = tt

  check-Holds :
      (name : String) (kind : Kind) (row : Row) (found : Option Value)
      → lookup name row ≡ found
      → check py float_of kind found ≡ true
      → Holds row (name, kind)
  unfolding check
  check-Holds name kind row none e h = cc
  check-Holds name kind row (some value) e h = elim (Option-cases (coerce_numeric float_of value)) [
    | inl bad ↦ absurd (false≢true (rw (bad, check) at h))
    | inr (x, good) ↦ (value, x, e, good, accepted-FitsRange kind x (rw (good, check) at h))
  ]

  check_all-Holds :
      (fs : List (String × Kind)) (row : Row)
      → check_all py float_of fs row ≡ true
      → All (Holds row) fs
  unfolding check_all
  check_all-Holds [] row h = tt
  check_all-Holds ((name, kind) ∷ fs) row h =
      let (first, rest) = and-eq-true _ _ h in
      (check-Holds name kind row (lookup name row) refl first, check_all-Holds fs row rest)

  -- A row that passes has every feature, none of them NULL, and each finite one in the range that
  -- the model declares.
  pub is_valid-Holds : (row : Row) → is_valid py float_of row ≡ true → All (Holds row) fields
  unfolding is_valid
  is_valid-Holds row h =
      check_all-Holds fields row (and-eq-true _ (check_all py float_of fields row) h).1
