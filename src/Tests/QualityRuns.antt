-- ===== src/Tests/QualityRuns.antt =====
-- Runs of the data quality checks and of their gate.
use paystream.Base.{ℕ, ◌≡◌, refl, ◌↔◌, Bool, true, List, [], ◌∷◌, ◌++◌, none, some}
use paystream.Base.Task.{ok, external_error}
use paystream.Quality.{
  Effect, search_summary, summary_of, dag_run, match, field, next_field, literal, spaces,
  skip_spaces, digits, more_digits,
}
use paystream.Quality.Parsing.{Numeral, line, search_summary-line}
use paystream.Quality.Rows.{Contents, answering, failures}
use paystream.Quality.Gate.{IsHealthy, gate_iff}
use paystream.Quality.Silence.{silent, silent_gate_iff}

abbrev always : List Effect → Effect → Bool
always log w = true

abbrev taken : (log : List Effect) (w : Effect) → always log w ≡ true
taken log w = refl

abbrev numeral_53 : Numeral
numeral_53 = record { first = 53; rest = 51 ∷ []; first_digit = refl; rest_digits = (refl, tt) }

abbrev numeral_2 : Numeral
numeral_2 = record { first = 50; rest = []; first_digit = refl; rest_digits = tt }

abbrev numeral_0 : Numeral
numeral_0 = record { first = 48; rest = []; first_digit = refl; rest_digits = tt }

abbrev numeral_55 : Numeral
numeral_55 = record { first = 53; rest = 53 ∷ []; first_digit = refl; rest_digits = (refl, tt) }

-- "Done. ", and the end of the line.
abbrev done : List ℕ
done = 68 ∷ 111 ∷ 110 ∷ 101 ∷ 46 ∷ 32 ∷ []

abbrev output : List ℕ
output = done ++ line numeral_53 numeral_2 numeral_0 numeral_0 numeral_55 (10 ∷ [])

search_summary-line_example :
    search_summary output
    ≡ some (record { passed = 53; warned = 2; errored = 0; skipped = 0; total = 55 })
search_summary-line_example =
    search_summary-line done numeral_53 numeral_2 numeral_0 numeral_0 numeral_55 (10 ∷ [])
      (refl, (refl, (refl, (refl, (refl, (refl, tt)))))) refl

-- A line that ends after its first field has no summary.
spaces_run : search_summary (80 ∷ 65 ∷ 83 ∷ 83 ∷ 61 ∷ 49 ∷ 32 ∷ []) ≡ none
unfolding search_summary match field next_field literal spaces skip_spaces digits more_digits
spaces_run = refl

abbrev contents : Contents
contents = record {
  silver = 100;
  fs = 97;
  fs_uniq = 81;
  with_null = 0;
  fs_rows = 500;
  rows_in = λ table. 50000;
  stamps_in = λ table. record { future = 0; ancient = 0; total = 9 };
}

gate_iff_example :
    ((dag_run always (answering contents) output []).0 ≡ ok true)
    ↔ ((failures [] ≡ 0) × IsHealthy output contents)
gate_iff_example = gate_iff always taken output contents []

silent_gate_iff_example :
    ((dag_run always (silent external_error) [] []).0 ≡ ok true)
    ↔ ((failures [] ≡ 0) × ((summary_of []).errored ≡ 0))
silent_gate_iff_example = silent_gate_iff always taken [] external_error []
