-- ===== src/Slo/Verdict.antt =====
-- What the exit code of the stress test says of the platform.
use paystream.Base.{
  inl, inr, ◌^◌, and-intro, ℕ, zero, suc, ◌+◌, ◌-◌, ◌*◌, ◌/◌, ◌≤◌, ◌<◌, ◌≡◌, ◌↔◌, refl, Bool, true,
  false, String, List, [], ◌∷◌, length, All, ltb, min, some, and-eq-true, arith,
}
use paystream.Base.Number.{negated}
use paystream.Base.Int.{ℤ, pos, negsuc, ltb_ℤ}
use paystream.Base.Rounding.{round_half_even}
use paystream.Base.Task.{Result-cases, Result, ok, raised}
use paystream.Slo.{
  hundredths, sort, item, rank, first_value, first_count, stale_hours, hours_slo, stale_slo,
  Answers, on_rows, result_of, measure_feature_store_freshness, measure_feature_api_p99,
  measure_gold_freshness, measure_ingestion_latency, measure_settlement_reconciliation,
  measure_drift_detection, measurements, measure_all_slos, code_of, exit_code,
}
use paystream.Slo.Sorting.{length-sort, sort-Sorted, All-sort_of, All-last, All-item, All-sort}

-- The query answered with a value below the limit.
abbrev pub IsBelow : ℕ → Result (List ℤ) → Type 0
IsBelow limit (raised e) = ⊥
IsBelow limit (ok []) = ⊥
IsBelow limit (ok (v ∷ vs)) = ltb_ℤ v (pos limit) ≡ true

-- Every lookup answered, each in less than 49.995 ms, which is 9999 / 200 of a millisecond.
abbrev pub AreFast : Result (List ℕ) → Type 0
AreFast (raised e) = ⊥
AreFast (ok latencies) = All (λ l. 200 * l < 9999 * 2 ^ 49) latencies

abbrev pub HasRun : Result (List ℕ) → Type 0
HasRun (raised e) = ⊥
HasRun (ok []) = ⊥
HasRun (ok (c ∷ cs)) = 1 ≤ c

pub record AllMet (answers : Answers) : Type 0 where
  pub features_fresh : IsBelow 21582 answers.feature_store_age
  pub lookups_fast : AreFast answers.lookups
  pub gold_fresh : IsBelow 89982 answers.gold_age
  pub bronze_fresh : IsBelow 30 answers.bronze_age
  pub settled : HasRun answers.settlements
  pub drift_fresh : IsBelow 60 answers.drift_age

code_of_iff : (b : Bool) → (code_of b ≡ 0) ↔ (b ≡ true)
code_of_iff true = ground arith
code_of_iff false = ground arith

negated_below : (k limit : ℕ) → 1 ≤ limit → ltb_ℤ (negated k) (pos limit) ≡ true
negated_below zero limit h = ground arith
negated_below (suc k) limit h = ground arith

-- Rounding to hundredths of an hour takes 18 seconds off the limit.
stale_hours_iff :
    (s : ℤ) (limit : ℕ)
    → 1 ≤ limit
    → (ltb_ℤ (stale_hours s) (pos (limit * 100)) ≡ true)
      ↔ (ltb_ℤ s (pos (limit * 3600 - 18)) ≡ true)
stale_hours_iff (pos s) limit h = ground arith
stale_hours_iff (negsuc n) limit h =
    (λ e. ground arith, λ e. negated_below ((suc n + 18) / 36) (limit * 100) (omega arith))

hours_met :
    (doc name : String) (limit : ℕ) (r : Result (List ℤ))
    → 1 ≤ limit
    → ((result_of doc (on_rows r (λ rows. hours_slo name limit (first_value rows)))).met ≡ true)
      ↔ IsBelow (limit * 3600 - 18) r
hours_met doc name limit (raised e) h = (λ k. cc, λ k. absurd k)
hours_met doc name limit (ok []) h = (λ k. cc, λ k. absurd k)
hours_met doc name limit (ok (v ∷ vs)) h = stale_hours_iff v limit h

stale_met :
    (doc name : String) (limit : ℕ) (r : Result (List ℤ))
    → ((result_of doc (on_rows r (λ rows. stale_slo name limit (first_value rows)))).met ≡ true)
      ↔ IsBelow limit r
stale_met doc name limit (raised e) = (λ k. cc, λ k. absurd k)
stale_met doc name limit (ok []) = (λ k. cc, λ k. absurd k)
stale_met doc name limit (ok (v ∷ vs)) = (λ k. k, λ k. k)

settled_met :
    (doc name : String) (r : Result (List ℕ))
    → ((result_of doc (
          on_rows r (λ rows. record {
            name = name;
            measured_value = some (pos (first_count rows));
            met = ltb 0 (first_count rows);
          }))).met
        ≡ true)
      ↔ HasRun r
settled_met doc name (raised e) = (λ k. cc, λ k. absurd k)
settled_met doc name (ok []) = (λ k. cc, λ k. absurd k)
settled_met doc name (ok (c ∷ cs)) = ground arith

hundredths_iff : (l : ℕ) → (ltb (hundredths l) 5000 ≡ true) ↔ (200 * l < 9999 * 2 ^ 49)
unfolding hundredths round_half_even
hundredths_iff l = ground arith

All-below :
    (m limit : ℕ) (xs : List ℕ)
    → 200 * m < limit
    → All (λ x. x ≤ m) xs
    → All (λ x. 200 * x < limit) xs
All-below m limit [] h k = tt
All-below m limit (x ∷ xs) h (k, ks) = (omega arith, All-below m limit xs h ks)

-- The 99th percentile of 20 latencies is the largest.
p99_iff :
    (limit : ℕ) (xs : List ℕ)
    → length xs ≡ 20
    → (200 * item (sort xs) (min (rank (length xs) 99) (length xs - 1)) < limit)
      ↔ All (λ l. 200 * l < limit) xs
p99_iff limit xs h =
    let m = min (rank (length xs) 99) (length xs - 1) in
    let at_end : suc m ≡ length (sort xs) = omega (arith, length-sort xs) in
    let top : All (λ l. l ≤ item (sort xs) m) (sort xs) =
      All-last (sort xs) m (sort-Sorted xs) at_end in
    (
      λ e.
          All-sort_of (λ l. 200 * l < limit) xs
            (All-below (item (sort xs) m) limit (sort xs) e top),
      λ fast.
          All-item (λ l. 200 * l < limit) (sort xs) m (All-sort (λ l. 200 * l < limit) xs fast)
            (omega arith),
    )

lookups_met :
    (answers : Answers)
    → ((xs : List ℕ) → answers.lookups ≡ ok xs → length xs ≡ 20)
    → ((result_of "SLO-2" (measure_feature_api_p99 answers)).met ≡ true) ↔ AreFast (answers.lookups)
unfolding measure_feature_api_p99
lookups_met answers h = elim (Result-cases (answers.lookups)) [
  | inr (x, e) ↦ rw e (λ k. cc, λ k. absurd k)
  | inl (xs, e) ↦
      let largest = item (sort xs) (min (rank (length xs) 99) (length xs - 1)) in
      let fast = hundredths_iff largest in
      let each = p99_iff (9999 * 2 ^ 49) xs (h xs e) in
      rw e (λ k. each.0 (fast.0 k), λ k. fast.1 (each.1 k))
]

-- The stress test exits with 0 exactly if every measurement's queries answer, the feature store is less
-- than 6 hours and the Gold layer less than 25 hours old, each less 18 seconds for the rounding, each of
-- the 20 lookups takes less than 49.995 ms, Bronze is less than 30 seconds and the drift metrics less than
-- 60 minutes old, and there is a settlement.
pub exit_code_iff :
    (answers : Answers)
    → ((xs : List ℕ) → answers.lookups ≡ ok xs → length xs ≡ 20)
    → (exit_code answers ≡ 0) ↔ AllMet answers
unfolding exit_code measure_all_slos measurements measure_feature_store_freshness
    measure_feature_api_p99 measure_gold_freshness measure_ingestion_latency
    measure_settlement_reconciliation measure_drift_detection
exit_code_iff answers h =
    let a =
      hours_met "SLO-1" "Feature Store freshness" 6 (answers.feature_store_age) (omega arith) in
    let b = lookups_met answers h in
    let c = hours_met "SLO-3" "Gold layer freshness" 25 (answers.gold_age) (omega arith) in
    let d = stale_met "SLO-4" "Ingestion latency P95" 30 (answers.bronze_age) in
    let e = settled_met "SLO-5" "Settlement reconciliation" (answers.settlements) in
    let f = stale_met "SLO-6" "Feature drift detection" 60 (answers.drift_age) in
    (
      λ k.
          let (k1, r1) = and-eq-true _ _ ((code_of_iff _).0 k) in
          let (k2, r2) = and-eq-true _ _ r1 in
          let (k3, r3) = and-eq-true _ _ r2 in
          let (k4, r4) = and-eq-true _ _ r3 in
          let (k5, r5) = and-eq-true _ _ r4 in
          let (k6, _) = and-eq-true _ _ r5 in
          record {
            features_fresh = a.0 k1;
            lookups_fast = b.0 k2;
            gold_fresh = c.0 k3;
            bronze_fresh = d.0 k4;
            settled = e.0 k5;
            drift_fresh = f.0 k6;
          },
      λ m. (code_of_iff _).1 (
          and-intro (a.1 (m.features_fresh)) (
            and-intro (b.1 (m.lookups_fast)) (
              and-intro (c.1 (m.gold_fresh)) (
                and-intro (d.1 (m.bronze_fresh))
                  (and-intro (e.1 (m.settled)) (and-intro (f.1 (m.drift_fresh)) refl)))))),
    )
