-- ===== src/DbtDags.antt =====
-- The Python tasks of dags/dbt_hourly_snapshots.py and dags/data_quality_gate.py. Counts and the results of dbt
-- are what the hook and `json.loads` answer; a time is a number, and `long_ago` is that of 2000-01-01.
pub mod Copying
use paystream.Base.{
  ℕ, suc, ◌+◌, ◌<◌, ◌≡◌, refl, sym, ap, ◌∙◌, subst, Bool, true, false, String, List, [], ◌∷◌, ◌++◌,
  length, take, Option, none, some, ltb, str_eq, append-nil, append_assoc, Bool-cases, inl, inr,
  arith, if◌then◌else◌,
}
use paystream.Base.Number.{Value}
use paystream.Base.Task.{
  Exn, Result, ok, raised, key_error, index_error, http_error, Result-cases, Task, pure, lift,
  insert, ◌>>=◌, ◌>>◌,
}

-- `[0][0]`
abbrev pub first_value : Result (List ℕ) → Result ℕ
first_value (raised e) = raised e
first_value (ok []) = raised index_error
first_value (ok (n ∷ ns)) = ok n

abbrev pub any_new : Result ℕ → Result ℕ → Result Bool
any_new (raised e) users = raised e
any_new (ok m) (raised e) = raised e
any_new (ok m) (ok u) = ok (ltb 0 (m + u))

module _ (long_ago : ℕ) (merchants_after users_after : ℕ → Result (List ℕ)) where
  abbrev pub or_long_ago : Option ℕ → ℕ
  or_long_ago none = long_ago
  or_long_ago (some t) = t

  unfoldable pub check_new_data : Option ℕ → Result Bool
  check_new_data prev_success =
      let prev = or_long_ago prev_success in
      any_new (first_value (merchants_after prev)) (first_value (users_after prev))

-- A result of dbt, `none` for a missing key.
pub record TestResult : Type 0 where
  pub name : Option Value
  pub status : Option Value
  pub execution_time : Option Value

-- A row of gold.dbt_test_results.
pub record TestRow : Type 0 where
  pub test_name : Value
  pub status : Value
  pub execution_time : Value

-- `r["name"]`, `r["status"]` and `r["execution_time"]`.
unfoldable pub test_row : TestResult → Result TestRow
test_row r = of_keys (r.name) (r.status) (r.execution_time)
  where
    of_keys : Option Value → Option Value → Option Value → Result TestRow
    of_keys (some n) (some s) (some t) =
        ok (record { test_name = n; status = s; execution_time = t })
    of_keys none s t = raised key_error
    of_keys (some n) none t = raised key_error
    of_keys (some n) (some s) none = raised key_error

module _ (loads : String → Result (List TestResult)) (accepts : List TestRow → TestRow → Bool) where
  abbrev pub parsed : Option String → Result (List TestResult)
  parsed none = ok []
  parsed (some output) = if str_eq output "" then ok [] else loads output

  unfoldable pub write_each : List TestResult → Task TestRow (Unit {0})
  write_each [] = pure tt
  write_each (r ∷ rs) =
      let rest = write_each rs in do row ← lift (test_row r); insert accepts row; rest

  unfoldable pub write_test_results_to_clickhouse : Option String → Task TestRow (Unit {0})
  unfolding write_each
  write_test_results_to_clickhouse test_output = do
    results ← lift (parsed test_output)
    write_each results
