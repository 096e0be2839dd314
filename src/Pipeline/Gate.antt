-- ===== src/Pipeline/Gate.antt =====
-- The validation gate: what it removes, what it writes, and what the rows that pass hold.
use paystream.Base.{
  ℕ, ◌≡◌, refl, ap, ◌∙◌, inl, inr, Bool, false, not, ◌||◌, ◌&&◌, List, [], ◌∷◌, ◌++◌, All, length,
  filter, arith,
}
use paystream.Base.Number.{is_negative}
use paystream.Base.Task.{
  pure, ◌>>◌, Result, ok, raised, Task, lift, insert, ◌>>=◌, >>=-eq-ok, insert-eq-ok, Result-cases,
}
use paystream.Features.{Row}
use paystream.Pipeline.{
  Write, Parsers, feature_columns, non_negative_columns, rate_columns, sweep, has_null,
  out_of_range, outside_rate, misordered, unmarked, remaining, null_row, negative_row, rate_row,
  ordering_row, validate_features,
}

-- Whether a check finds fault with a row.
abbrev pub hits : (Row → Result Bool) → Row → Bool
hits test row = elim (test row) [ ok b ↦ b | raised e ↦ false ]

abbrev pub rows_of : List (Row × Bool) → List Row
rows_of [] = []
rows_of ((row, b) ∷ ms) = row ∷ rows_of ms

abbrev pub marked_by : (Row → Result Bool) → List (Row × Bool) → List (Row × Bool)
marked_by test [] = []
marked_by test ((row, b) ∷ ms) = (row, hits test row || b) ∷ marked_by test ms

-- The check raises on no row.
abbrev pub Decides : (Row → Result Bool) → List Row → Type 0
Decides test = All (λ row. (b : Bool) × (test row ≡ ok b))

-- A finished loop has counted the rows that the check finds fault with, and marked them.
sweep_lem :
    (test : Row → Result Bool) (ms : List (Row × Bool)) (r : ℕ × List (Row × Bool))
    → sweep test ms ≡ ok r
    → (r.0 ≡ length (filter (hits test) (rows_of ms)))
      × (r.1 ≡ marked_by test ms)
      × Decides test (rows_of ms)
unfolding sweep
sweep_lem test [] r h = ground arith
sweep_lem test ((row, b) ∷ ms) r h = elim (Result-cases (test row)) [
  | inr (x, e) ↦ ground arith
  | inl (hit, e) ↦ elim (Result-cases (sweep test ms)) [
    | inr (x, e') ↦ ground arith
    | inl (counted, e') ↦
        let ih = sweep_lem test ms counted e' in
        (ground (arith, ih.0), ground (arith, ih.1), ((hit, e), ih.2))
  ]
]

rows_of-unmarked : (rows : List Row) → rows_of (unmarked rows) ≡ rows
rows_of-unmarked [] = refl
rows_of-unmarked (row ∷ rows) = ap (◌∷◌ row) (rows_of-unmarked rows)

rows_of-marked_by :
    (test : Row → Result Bool) (ms : List (Row × Bool)) → rows_of (marked_by test ms) ≡ rows_of ms
rows_of-marked_by test [] = refl
rows_of-marked_by test ((row, b) ∷ ms) = ap (◌∷◌ row) (rows_of-marked_by test ms)

-- No check finds fault with the row.
abbrev pub keeps : (first second third : Row → Result Bool) → Row → Bool
keeps first second third row =
    not (hits first row) && (not (hits second row) && not (hits third row))

remaining-marked_by :
    (first second third : Row → Result Bool) (rows : List Row)
    → remaining (marked_by third (marked_by second (marked_by first (unmarked rows))))
      ≡ filter (keeps first second third) rows
unfolding remaining
remaining-marked_by first second third [] = refl
remaining-marked_by first second third (row ∷ rows) =
    ground (arith, remaining-marked_by first second third rows)

append_four {ℓ} :
    {A : Type ℓ} (xs : List A) (a b c d : A)
    → (((xs ++ a ∷ []) ++ b ∷ []) ++ c ∷ []) ++ d ∷ [] ≡ xs ++ a ∷ b ∷ c ∷ d ∷ []
append_four [] a b c d = refl
append_four (x ∷ xs) a b c d = ap (◌∷◌ x) (append_four xs a b c d)

-- A check that returns has finished its loop and written its result.
checked :
    {S A : Type 0} (accepts : List Write → Write → Bool) (loop : Result (ℕ × S))
    (result : ℕ → Write) (rest : ℕ × S → Task Write A) (log log' : List Write) {a : A}
    → (do s ← lift loop; insert accepts (result s.0); rest s) log ≡ (ok a, log')
    → (s : ℕ × S) × (loop ≡ ok s) × (rest s (log ++ result s.0 ∷ []) ≡ (ok a, log'))
checked accepts (raised e) result rest log log' h = cc
checked accepts (ok s) result rest log log' h =
    let (u, log1, w, k) = >>=-eq-ok (insert accepts (result s.0)) (λ _. rest s) log log' h in
    (s, refl, rw (← insert-eq-ok accepts (result s.0) log log1 w) k)

abbrev pub nulls : Row → Result Bool
nulls = has_null feature_columns

abbrev pub failures : (Row → Result Bool) → List Row → ℕ
failures test rows = length (filter (hits test) rows)

module _ (parsers : Parsers) where
  abbrev pub negatives : Row → Result Bool
  negatives = out_of_range parsers is_negative non_negative_columns

  abbrev pub bad_rates : Row → Result Bool
  bad_rates = out_of_range parsers outside_rate rate_columns

  abbrev pub passes : Row → Bool
  passes = keeps nulls negatives bad_rates

  -- What a validation that returns has done.
  pub record Validated (rows valid : List Row) (log log' : List Write) : Type 0 where
    pub kept : valid ≡ filter passes rows
    pub written :
        log'
        ≡ log
          ++ null_row (length rows) (failures nulls rows)
            ∷ negative_row (length rows) (failures negatives rows)
            ∷ rate_row (length rows) (failures bad_rates rows)
            ∷ ordering_row (length rows) (failures (misordered parsers) rows)
            ∷ []
    pub decided :
        Decides nulls rows
        × Decides negatives rows
        × Decides bad_rates rows
        × Decides (misordered parsers) rows

module _ (parsers : Parsers) (accepts : List Write → Write → Bool) where
  -- The ends of `validate_features`, after one, two and three checks.
  ends : List Row → List (Row × Bool) → Task Write (List Row)
  ends rows ms = do
    s4 ← lift (sweep (misordered parsers) (unmarked rows))
    insert accepts (ordering_row (length rows) s4.0)
    pure (remaining ms)

  after_negatives : List Row → List (Row × Bool) → Task Write (List Row)
  unfolding ends
  after_negatives rows ms = do
    s3 ← lift (sweep (bad_rates parsers) ms)
    insert accepts (rate_row (length rows) s3.0)
    ends rows s3.1

  after_nulls : List Row → List (Row × Bool) → Task Write (List Row)
  unfolding after_negatives
  after_nulls rows ms = do
    s2 ← lift (sweep (negatives parsers) ms)
    insert accepts (negative_row (length rows) s2.0)
    after_negatives rows s2.1

  -- What a finished loop says, `sweep_lem` of it.
  abbrev Swept : (Row → Result Bool) → List (Row × Bool) → ℕ × List (Row × Bool) → Type 0
  Swept test ms r =
      (r.0 ≡ length (filter (hits test) (rows_of ms)))
      × (r.1 ≡ marked_by test ms)
      × Decides test (rows_of ms)

  assemble :
      (rows valid : List Row) (log log' : List Write) (s1 s2 s3 s4 : ℕ × List (Row × Bool))
      → Swept nulls (unmarked rows) s1
      → Swept (negatives parsers) s1.1 s2
      → Swept (bad_rates parsers) s2.1 s3
      → Swept (misordered parsers) (unmarked rows) s4
      → pure (remaining s3.1) (
          (((log ++ null_row (length rows) s1.0 ∷ []) ++ negative_row (length rows) s2.0 ∷ [])
            ++ rate_row (length rows) s3.0 ∷ [])
          ++ ordering_row (length rows) s4.0 ∷ [])
        ≡ (ok valid, log')
      → Validated parsers rows valid log log'
  assemble rows valid log log' s1 s2 s3 s4 (c1, m1, d1) (c2, m2, d2) (c3, m3, d3) (c4, m4, d4) h =
      let r1 : rows_of (unmarked rows) ≡ rows = rows_of-unmarked rows in
      let r2 : rows_of s1.1 ≡ rows = ap rows_of m1 ∙ rows_of-marked_by nulls (unmarked rows) ∙ r1 in
      let r3 : rows_of s2.1 ≡ rows =
        ap rows_of m2 ∙ rows_of-marked_by (negatives parsers) s1.1 ∙ r2 in
      record {
        kept = cc (remaining-marked_by nulls (negatives parsers) (bad_rates parsers) rows);
        written =
            let k1 : s1.0 ≡ failures nulls rows = rw r1 at c1 in
            let k2 : s2.0 ≡ failures (negatives parsers) rows = rw r2 at c2 in
            let k3 : s3.0 ≡ failures (bad_rates parsers) rows = rw r3 at c3 in
            let k4 : s4.0 ≡ failures (misordered parsers) rows = rw r1 at c4 in
            cc (
              append_four log (null_row (length rows) s1.0) (negative_row (length rows) s2.0)
                (rate_row (length rows) s3.0) (ordering_row (length rows) s4.0));
        decided = (rw r1 at d1, rw r2 at d2, rw r3 at d3, rw r1 at d4);
      }

  pub validate_features_lem :
      (rows valid : List Row) (log log' : List Write)
      → validate_features parsers accepts rows log ≡ (ok valid, log')
      → Validated parsers rows valid log log'
  unfolding validate_features after_nulls
  validate_features_lem rows valid log log' h =
      let n = length rows in
      let (s1, e1, h1) =
        checked accepts (sweep nulls (unmarked rows)) (null_row n) (λ s. after_nulls rows s.1) log
          log' h in
      let (s2, e2, h2) =
        checked accepts (sweep (negatives parsers) s1.1) (negative_row n)
          (λ s. after_negatives rows s.1) _ log' h1 in
      let (s3, e3, h3) =
        checked accepts (sweep (bad_rates parsers) s2.1) (rate_row n) (λ s. ends rows s.1) _ log'
          h2 in
      let (s4, e4, h4) =
        checked accepts (sweep (misordered parsers) (unmarked rows)) (ordering_row n)
          (λ s. pure (remaining s3.1)) _ log' h3 in
      assemble rows valid log log' s1 s2 s3 s4 (sweep_lem _ _ s1 e1) (sweep_lem _ _ s2 e2)
        (sweep_lem _ _ s3 e3) (sweep_lem _ _ s4 e4) h4
