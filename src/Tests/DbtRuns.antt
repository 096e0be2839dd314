-- ===== src/Tests/DbtRuns.antt =====
-- Runs of the tasks around dbt.
use paystream.Base.{ℕ, ◌≡◌, refl, Bool, true, false, String, List, [], ◌∷◌, none, some}
use paystream.Base.Int.{pos}
use paystream.Base.Number.{ratio, Value, number, text}
use paystream.Base.Task.{Result, ok, raised, key_error, index_error}
use paystream.DbtDags.{
  TestResult, TestRow, check_new_data, test_row, write_each, write_test_results_to_clickhouse,
}

abbrev counts : ℕ → Result (List ℕ)
counts prev = ok (prev ∷ [])

new_run : check_new_data 0 counts counts (some 7) ≡ ok true
unfolding check_new_data
new_run = refl

-- Without a successful run before, all that came since 2000 counts.
nothing_run : check_new_data 0 counts counts none ≡ ok false
unfolding check_new_data
nothing_run = refl

unanswered_run : check_new_data 0 counts (λ prev. ok []) none ≡ raised index_error
unfolding check_new_data
unanswered_run = refl

abbrev result : Value → TestResult
result name = record {
  name = some name;
  status = some (text "pass");
  execution_time = some (number (ratio (pos 1) 9));
}

abbrev takes : List TestRow → TestRow → Bool
takes log row = true

abbrev loads : String → Result (List TestResult)
loads output = ok (result (text "a") ∷ record (result (text "b")) { status = none } ∷ [])

-- The second result has no status.
partial_run : write_test_results_to_clickhouse loads takes (some "[...]") [] ≡ (
  raised key_error,
  record { test_name = text "a"; status = text "pass"; execution_time = number (ratio (pos 1) 9) }
      ∷ [],
)
unfolding write_test_results_to_clickhouse write_each test_row
partial_run = refl

nothing_written : write_test_results_to_clickhouse loads takes none [] ≡ (ok tt, [])
unfolding write_test_results_to_clickhouse write_each
nothing_written = refl
