-- ===== src/Spark/Passing.antt =====
-- The computed features pass the quality gate.
use paystream.Base.{
  and-intro, ℕ, ◌≤◌, ◌<◌, ◌≡◌, refl, ap, ◌∙◌, true, false, String, List, [], ◌∷◌, length, filter,
  map, Option, none, some, leb, length-filter-le, arith,
}
use paystream.Base.Int.{ℤ, pos}
use paystream.Base.Number.{ratio}
use paystream.Spark.{
  Transaction, Silver, Features, Repayment, since, velocity, repayment_rate, group_rate,
  own_transactions, own_repayments, features_of, compute_features, read_silver, slower, outside,
  quality_gate, gated, main, cast_short, fill, is_null, to_short, on_time, distinct, is_due,
}
use paystream.Spark.Bounds.{length-filter_mono, to_short_small, rate-IsRate, not-any-map}

is_null-cast : (d : ℤ) (o : Option ℤ) → is_null (cast_short (fill d o)) ≡ false
is_null-cast d none = refl
is_null-cast d (some z) = refl

is_null-fill : {A : Type 0} (d : A) (o : Option A) → is_null (fill d o) ≡ false
is_null-fill d none = refl
is_null-fill d (some a) = refl

-- What was in the last 7 days was in the last 30.
since-weaken : (s : ℕ) (t : Transaction) → since 7 s t ≡ true → since 30 s t ≡ true
since-weaken s t h = ground arith

not_slower :
    (s : ℕ) (ts : List Transaction)
    → length ts < 32768
    → slower (cast_short (some (velocity 30 s ts))) (cast_short (some (velocity 7 s ts))) ≡ false
not_slower s ts h =
    let few = length (filter (since 7 s) ts) in
    let many = length (filter (since 30 s) ts) in
    let le : few ≤ many = length-filter_mono (since 7 s) (since 30 s) ts (since-weaken s) in
    let small : many ≤ length ts = length-filter-le (since 30 s) ts in
    let e7 : to_short (pos few) ≡ pos few = to_short_small few (omega arith) in
    let e30 : to_short (pos many) ≡ pos many = to_short_small many (omega arith) in
    let c7 : to_short (velocity 7 s ts) ≡ pos few = ap to_short e7 ∙ e7 in
    let c30 : to_short (velocity 30 s ts) ≡ pos many = ap to_short e30 ∙ e30 in
    ap (λ z. slower (some z) (cast_short (some (velocity 7 s ts)))) c30
    ∙ ap (λ z. slower (some (pos many)) (some z)) c7
    ∙ ground arith

not_outside :
    (s : ℕ) (rs : List Repayment) → outside (fill (ratio (pos 0) 0) (repayment_rate s rs)) ≡ false
unfolding repayment_rate
not_outside s rs = group (filter (is_due s) rs)
  where
    group : (due : List Repayment) → outside (fill (ratio (pos 0) 0) (group_rate due)) ≡ false
    group [] = refl
    group (r ∷ due) =
        let n = length (filter on_time (r ∷ due)) in
        let d = length (r ∷ due) in
        let (low, high) = rate-IsRate n d (length-filter-le on_time (r ∷ due)) in
        ground (arith, low, high)

gated-eq-some :
    (ts : List Transaction) (features : List Features)
    → 1 ≤ length ts
    → quality_gate features ≡ true
    → gated ts features ≡ some features
gated-eq-some [] features h passes = absurd (omega arith)
gated-eq-some (t ∷ ts) features h passes = rw passes refl

module _ (s hours : ℕ) (version : String) where
  -- With at least an hour of validity, and under 2 ^ 15 transactions of each user, the features of any
  -- data pass the gate.
  pub quality_gate-compute_features :
      (silver : Silver)
      → 1 ≤ hours
      → ((u : ℕ) → length (own_transactions u silver) < 32768)
      → quality_gate (compute_features s hours version silver) ≡ true
  unfolding quality_gate compute_features features_of
  quality_gate-compute_features silver h small =
      let us = distinct (map (λ t. t.user_id) (silver.transactions)) in
      let f = features_of s hours version silver in
      and-intro
        (and-intro (not-any-map (λ r. is_null r.tx_velocity_7d) f us (λ u. refl)) (
          and-intro (not-any-map (λ r. is_null r.tx_velocity_30d) f us (λ u. refl)) (
            and-intro (not-any-map (λ r. is_null r.avg_tx_amount_30d) f us (λ u. is_null-fill _ _))
              (and-intro
                (not-any-map (λ r. is_null r.repayment_rate_90d) f us (λ u. is_null-fill _ _))
                (and-intro (not-any-map (λ r. is_null r.merchant_diversity_30d) f us (λ u. refl)) (
                  and-intro (not-any-map (λ r. is_null r.declined_rate_7d) f us (λ u. refl)) (
                    and-intro
                      (not-any-map (λ r. is_null r.active_installments) f us
                        (λ u. is_null-cast _ _))
                      (and-intro
                        (not-any-map (λ r. is_null r.days_since_first_tx) f us
                          (λ u. is_null-cast _ _))
                        refl))))))))
        (and-intro
          (not-any-map (λ r. slower (r.tx_velocity_30d) (r.tx_velocity_7d)) f us
            (λ u. not_slower s (own_transactions u silver) (small u)))
          (and-intro
            (not-any-map (λ r. outside (r.repayment_rate_90d)) f us
              (λ u. not_outside s (own_repayments u silver)))
            (not-any-map (λ r. leb r.valid_to r.valid_from) f us (λ u. ground arith))))

  pub main-eq-some :
      (silver : Silver)
      → 1 ≤ hours
      → 1 ≤ length ((read_silver s silver).transactions)
      → ((u : ℕ) → length (own_transactions u (read_silver s silver)) < 32768)
      → main s hours version silver ≡ some (compute_features s hours version (read_silver s silver))
  unfolding main
  main-eq-some silver h some_rows small =
      gated-eq-some ((read_silver s silver).transactions) _ some_rows
        (quality_gate-compute_features (read_silver s silver) h small)
