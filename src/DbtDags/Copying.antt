-- ===== src/DbtDags/Copying.antt =====
-- What a run of `write_test_results_to_clickhouse` leaves.
use paystream.Base.{
  ℕ, suc, ◌<◌, ◌≡◌, subst, Bool, String, List, [], ◌∷◌, ◌++◌, length, take, Option, append-nil,
  append_assoc, Bool-cases, inl, inr, arith,
}
use paystream.Base.Task.{Exn, Result, ok, raised, http_error, Result-cases}
use paystream.DbtDags.{
  TestResult, TestRow, test_row, parsed, write_each, write_test_results_to_clickhouse,
}

-- The rows of some results are these.
pub data Rows : List TestResult → List TestRow → Type 0 where
  no_results : Rows [] []
  next_row :
      {r : TestResult} {rs : List TestResult} {row : TestRow} {rows : List TestRow}
      → test_row r ≡ ok row
      → Rows rs rows
      → Rows (r ∷ rs) (row ∷ rows)

-- What a run leaves: the rows of all results where it returns, and those of the first ones, before one that has no row or
-- is not taken, where it raises.
pub data Copied (results : List TestResult) (log : List TestRow)
    : Result (Unit {0}) × List TestRow → Type 0 where
  whole : (rows : List TestRow) → Rows results rows → Copied results log (ok tt, log ++ rows)
  part :
      (e : Exn) (n : ℕ) (rows : List TestRow)
      → n < length results
      → Rows (take n results) rows
      → Copied results log (raised e, log ++ rows)

module _ (loads : String → Result (List TestResult)) (accepts : List TestRow → TestRow → Bool) where
  Copied-next :
      (r : TestResult) (rs : List TestResult) (row : TestRow) (log : List TestRow)
      (run : Result (Unit {0}) × List TestRow)
      → test_row r ≡ ok row
      → Copied rs (log ++ row ∷ []) run
      → Copied (r ∷ rs) log run
  Copied-next r rs row log _ e (whole rows h) =
      rw (append_assoc log (row ∷ []) rows) (whole (row ∷ rows) (next_row e h))
  Copied-next r rs row log _ e (part x n rows le h) =
      rw (append_assoc log (row ∷ []) rows)
        (part x (suc n) (row ∷ rows) (omega arith) (next_row e h))

  none_copied :
      (r : TestResult) (rs : List TestResult) (log : List TestRow) (e : Exn)
      → Copied (r ∷ rs) log (raised e, log)
  none_copied r rs log e =
      subst (λ l. Copied (r ∷ rs) log (raised e, l)) (append-nil log)
        (part e 0 [] (omega arith) no_results)

  write_each-Copied :
      (results : List TestResult) (log : List TestRow)
      → Copied results log (write_each loads accepts results log)
  unfolding write_each
  write_each-Copied [] log =
      subst (λ l. Copied [] log (ok tt, l)) (append-nil log) (whole [] no_results)
  write_each-Copied (r ∷ rs) log = elim (Result-cases (test_row r)) [
    | inr (e, h) ↦ rw h (none_copied r rs log e)
    | inl (row, h) ↦ elim (Bool-cases (accepts log row)) [
      | inr k ↦ rw h (rw k (none_copied r rs log http_error))
      | inl k ↦ rw h (rw k (Copied-next r rs row log _ h (write_each-Copied rs (log ++ row ∷ []))))
    ]
  ]

  -- Of the results that can be read, a run writes one row each, in their order: all of them where it returns, and those before one
  -- that lacks a key or is not taken where it raises.
  pub write_test_results_to_clickhouse-Copied :
      (test_output : Option String) (results : List TestResult) (log : List TestRow)
      → parsed loads accepts test_output ≡ ok results
      → Copied results log (write_test_results_to_clickhouse loads accepts test_output log)
  unfolding write_test_results_to_clickhouse
  write_test_results_to_clickhouse-Copied test_output results log h =
      rw h (write_each-Copied results log)
