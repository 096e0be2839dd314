-- ===== src/Quality/Silence.antt =====
-- What the quality gate of dags/dq_validation.py makes of checks that cannot tell.
use paystream.Base.{
  ℕ, ◌+◌, ◌≡◌, refl, ap, ◌∙◌, ◌↔◌, Bool, true, false, List, [], ◌∷◌, All, ◌==◌, ==_iff, arith,
}
use paystream.Base.Task.{Exn, ok, raised, continue}
use paystream.Base.Trace.{Does}
use paystream.Quality.{
  Effect, Database, or_no_summary, pass_if, no_summary, summary_of, check_feature_completeness,
  check_feature_nulls, check_gold_completeness, check_gold_feature_reconciliation,
  check_bronze_timestamp_range, count_tables, scan_tables, evaluate_quality_gate, run_checks,
  dag_run,
}
use paystream.Quality.Parsing.{search_summary-none}
use paystream.Quality.Rows.{weight, failures, test_row, written, test-Does}
use paystream.Quality.Gate.{test_row-weight, failures-append}

-- Every query of a check raises.
abbrev pub silent : Exn → Database
silent e = record {
  silver_users = raised e;
  fs_users = raised e;
  fs_users_uniq = raised e;
  null_rows = raised e;
  fs_rows = raised e;
  count_of = λ table. raised e;
  timestamps_of = λ table. raised e;
  recent_failures = λ log. ok (failures log ∷ []);
}

module _ (accepts : List Effect → Effect → Bool)
    (taken : (log : List Effect) (w : Effect) → accepts log w ≡ true) where
  silent_checks :
      (raw : List ℕ) (e : Exn)
      → Does (run_checks accepts (silent e) raw) tt (written (test_row raw) "dbt_status")
  unfolding run_checks check_feature_completeness check_feature_nulls check_gold_completeness
      check_gold_feature_reconciliation check_bronze_timestamp_range count_tables scan_tables
  silent_checks raw e = record {
    does = λ log. ap (λ r. continue r (λ u l. (ok tt, l))) ((test-Does accepts taken raw).does log);
  }

  -- Where every query of the checks raises, the gate opens all the same, unless a row of the last hour
  -- had failed before or a dbt test is in error: a check that raises writes no row.
  pub silent_gate_iff :
      (raw : List ℕ) (e : Exn) (before : List Effect)
      → ((dag_run accepts (silent e) raw before).0 ≡ ok true)
        ↔ ((failures before ≡ 0) × ((summary_of raw).errored ≡ 0))
  unfolding dag_run evaluate_quality_gate
  silent_gate_iff raw e before =
      let rows = written (test_row raw) "dbt_status" in
      let run : (dag_run accepts (silent e) raw before).0
          ≡ ok (failures before + failures rows == 0) =
        ap (λ r. (continue r (λ u. evaluate_quality_gate accepts (silent e))).0)
          ((silent_checks raw e).does before)
        ∙ ap (λ n. ok (n == 0)) (failures-append before rows) in
      let (to, from) = test_row-weight raw in
      (
        λ h.
            let none_failed : (failures before + failures rows == 0) ≡ true = ground (arith, run) in
            let zero : failures before + failures rows ≡ 0 = (==_iff _ 0).0 none_failed in
            (omega (arith, zero), to (omega (arith, zero))),
        λ (b, h). run ∙ ap ok ((==_iff _ 0).1 (omega (arith, b, from h))),
      )

-- An output of dbt with no P in it, such as a bare error message, is written with no test in error and
-- none run.
pub unparsed_lem :
    (raw : List ℕ)
    → All (λ c. (80 == c) ≡ false) raw
    → (failures (written (test_row raw) "dbt_status") ≡ 0) × ((test_row raw).rows_checked ≡ 0)
unfolding summary_of
unparsed_lem [] h = (refl, refl)
unparsed_lem (c ∷ raw) h =
    let empty : summary_of (c ∷ raw) ≡ no_summary =
      ap or_no_summary (search_summary-none (c ∷ raw) h) in
    (ap (λ s. weight (pass_if (s.errored == 0)) + 0) empty, ap (λ s. s.total) empty)
