-- ===== src/Quality/Gate.antt =====
-- When the quality gate of dags/dq_validation.py opens.
use paystream.Base.{
  ℕ, ◌+◌, ◌*◌, ◌≤◌, ◌≡◌, refl, ap, ◌∙◌, ◌↔◌, Bool, true, false, List, [], ◌∷◌, ◌++◌, All, all, ◌==◌,
  ==_iff, leb, Bool-cases, inl, inr, arith,
}
use paystream.Base.Task.{continue, ok}
use paystream.Base.Trace.{Does, >>=-Does}
use paystream.Quality.{
  Effect, coverage_status, pass_if, search_summary, summary_of, gold_tables, bronze_tables, bad,
  evaluate_quality_gate, run_checks, dag_run,
}
use paystream.Quality.Rows.{
  Contents, weight, failures, counted, scanned, answering, test_row, completeness_row, null_row,
  gold_row, reconciliation_row, bronze_row, written, test-Does, completeness-Does, null-Does,
  gold-Does, reconciliation-Does, bronze-Does,
}

-- What the checks ask of the data.
pub record IsHealthy (raw : List ℕ) (c : Contents) : Type 0 where
  pub tests_pass : (summary_of raw).errored ≡ 0
  pub users : 1 ≤ c.silver
  pub covered : 4 * c.silver ≤ 5 * c.fs
  pub covered_uniq : 4 * c.silver ≤ 5 * c.fs_uniq
  pub no_nulls : c.with_null ≡ 0
  pub filled : All (λ t. t.1 ≤ c.rows_in (t.0)) gold_tables
  pub in_time : All (λ t. bad (c.stamps_in t) ≡ 0) bronze_tables

abbrev pub all_written : List ℕ → Contents → List Effect
all_written raw c =
    written (test_row raw) "dbt_status"
    ++ (written (completeness_row c) "fs_completeness_status"
        ++ (written (null_row c) "fs_null_status"
            ++ (written (gold_row c) "gold_completeness_status"
                ++ (written (reconciliation_row c) "gold_reconciliation_status"
                    ++ written (bronze_row c) "bronze_ts_status"))))

pub failures-append : (xs ys : List Effect) → failures (xs ++ ys) ≡ failures xs + failures ys
failures-append [] ys = omega arith
failures-append (x ∷ xs) ys = omega (arith, failures-append xs ys)

pub iff_trans {ℓ κ μ} : {A : Type ℓ} {B : Type κ} {C : Type μ} → A ↔ B → B ↔ C → A ↔ C
iff_trans p q = (λ a. q.0 (p.0 a), λ c. p.1 (q.1 c))

pass_if-weight : (b : Bool) → (weight (pass_if b) ≡ 0) ↔ (b ≡ true)
pass_if-weight true = ground arith
pass_if-weight false = ground arith

coverage_status-weight :
    (silver fs : ℕ)
    → (weight (coverage_status silver fs) ≡ 0) ↔ ((1 ≤ silver) × (4 * silver ≤ 5 * fs))
unfolding coverage_status
coverage_status-weight silver fs = elim (Bool-cases (silver == 0)) [
  | inl e ↦ rw (e, coverage_status) (ground arith)
  | inr e ↦ elim (Bool-cases (leb (19 * silver) (20 * fs))) [
    | inl e' ↦ rw (e, coverage_status) (rw e' (ground arith))
    | inr e' ↦ elim (Bool-cases (leb (4 * silver) (5 * fs))) [
      | inl e'' ↦ rw (e, coverage_status) (rw e' (rw e'' (ground arith)))
      | inr e'' ↦ rw (e, coverage_status) (rw e' (rw e'' (ground arith)))
    ]
  ]
]

pub test_row-weight :
    (raw : List ℕ) → (weight ((test_row raw).status) ≡ 0) ↔ ((summary_of raw).errored ≡ 0)
unfolding summary_of search_summary
test_row-weight [] = (λ h. refl, λ h. refl)
test_row-weight (x ∷ raw) =
    let passes = (summary_of (x ∷ raw)).errored == 0 in
    iff_trans (pass_if-weight passes) (==_iff ((summary_of (x ∷ raw)).errored) 0)

gold_row-weight :
    (c : Contents)
    → (weight ((gold_row c).status) ≡ 0) ↔ All (λ t. t.1 ≤ c.rows_in (t.0)) gold_tables
gold_row-weight c = iff_trans (pass_if-weight (all (λ r. r.3) (counted c))) (ground arith)

bronze_row-weight :
    (c : Contents)
    → (weight ((bronze_row c).status) ≡ 0) ↔ All (λ t. bad (c.stamps_in t) ≡ 0) bronze_tables
bronze_row-weight c = iff_trans (pass_if-weight (all (λ r. r.2) (scanned c))) (ground arith)

data_fails : (raw : List ℕ) (c : Contents) → (failures (all_written raw c) ≡ 0) ↔ IsHealthy raw c
data_fails raw c = (to, from)
  where
    to : failures (all_written raw c) ≡ 0 → IsHealthy raw c
    to h =
        let t : weight ((test_row raw).status) ≡ 0 = omega arith in
        let f : weight ((completeness_row c).status) ≡ 0 = omega arith in
        let n : weight ((null_row c).status) ≡ 0 = omega arith in
        let g : weight ((gold_row c).status) ≡ 0 = omega arith in
        let r : weight ((reconciliation_row c).status) ≡ 0 = omega arith in
        let b : weight ((bronze_row c).status) ≡ 0 = omega arith in
        let covered = (coverage_status-weight (c.silver) (c.fs)).0 f in
        record {
          tests_pass = (test_row-weight raw).0 t;
          users = covered.0;
          covered = covered.1;
          covered_uniq = ((coverage_status-weight (c.silver) (c.fs_uniq)).0 r).1;
          no_nulls = (==_iff (c.with_null) 0).0 ((pass_if-weight (c.with_null == 0)).0 n);
          filled = (gold_row-weight c).0 g;
          in_time = (bronze_row-weight c).0 b;
        }

    from : IsHealthy raw c → failures (all_written raw c) ≡ 0
    from h =
        let t = (test_row-weight raw).1 (h.tests_pass) in
        let f = (coverage_status-weight (c.silver) (c.fs)).1 (h.users, h.covered) in
        let n = (pass_if-weight (c.with_null == 0)).1 ((==_iff (c.with_null) 0).1 (h.no_nulls)) in
        let g = (gold_row-weight c).1 (h.filled) in
        let r = (coverage_status-weight (c.silver) (c.fs_uniq)).1 (h.users, h.covered_uniq) in
        let b = (bronze_row-weight c).1 (h.in_time) in omega (arith, t, f, n, g, r, b)

module _ (accepts : List Effect → Effect → Bool)
    (taken : (log : List Effect) (w : Effect) → accepts log w ≡ true) where
  dag_run_lem :
      (raw : List ℕ) (c : Contents) (before : List Effect)
      → dag_run accepts (answering c) raw before
        ≡ (ok (failures (before ++ all_written raw c) == 0), before ++ all_written raw c)
  unfolding dag_run evaluate_quality_gate run_checks
  dag_run_lem raw c before =
      let checks : Does (run_checks accepts (answering c) raw) tt (all_written raw c) =
        >>=-Does _ _ (test-Does accepts taken raw) (
          >>=-Does _ _ (completeness-Does accepts taken c) (
            >>=-Does _ _ (null-Does accepts taken c) (
              >>=-Does _ _ (gold-Does accepts taken c) (
                >>=-Does _ _ (reconciliation-Does accepts taken c)
                  (bronze-Does accepts taken c))))) in
      ap (λ r. continue r (λ u. evaluate_quality_gate accepts (answering c))) (checks.does before)

  -- Where every query is answered and every write taken, the gate opens exactly if no row of the last
  -- hour had failed before and the data is healthy: no dbt test in error, users in Silver, at least 80 %
  -- of them in the Feature Store by both counts, no NULL feature, the Gold tables filled, and no
  -- timestamp out of range.
  pub gate_iff :
      (raw : List ℕ) (c : Contents) (before : List Effect)
      → ((dag_run accepts (answering c) raw before).0 ≡ ok true)
        ↔ ((failures before ≡ 0) × IsHealthy raw c)
  gate_iff raw c before =
      let run : (dag_run accepts (answering c) raw before).0
          ≡ ok (failures before + failures (all_written raw c) == 0) =
        ap (λ r. r.0) (dag_run_lem raw c before)
        ∙ ap (λ n. ok (n == 0)) (failures-append before (all_written raw c)) in
      let (to, from) = data_fails raw c in
      (
        λ h.
            let none_failed : (failures before + failures (all_written raw c) == 0) ≡ true =
              ground (arith, run) in
            let zero : failures before + failures (all_written raw c) ≡ 0 =
              (==_iff _ 0).0 none_failed in
            (omega (arith, zero), to (omega (arith, zero))),
        λ (e, h). run ∙ ap ok ((==_iff _ 0).1 (omega (arith, e, from h))),
      )
