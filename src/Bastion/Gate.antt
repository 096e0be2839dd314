-- ===== src/Bastion/Gate.antt =====
-- The gate of scripts/compute_features.py and the one of spark/jobs/credit_feature_engineer.py.
use paystream.Base.{
  ℕ, ◌+◌, ◌*◌, ◌≡◌, ◌↔◌, refl, sym, ap, ◌∙◌, Bool, true, false, not, ◌&&◌, ◌||◌, List, [], ◌∷◌, map,
  Option, none, some, any, all, leb, Bool-cases, inl, inr, arith,
}
use paystream.Base.Int.{ℤ}
use paystream.Base.Number.{Number, ratio, infinity, neg_infinity, nan}
use paystream.Base.Task.{Result, ok, raised}
use paystream.Spark.{Features, is_null, null_columns, slower, outside, quality_gate}
use paystream.Bastion.{
  Vector, null_tests, is_less, is_outside, some_row, verdict, gate, insert_row,
  snapshot_interval_hours,
}

any-map :
    {A B : Type 0} (p : B → Bool) (f : A → B) (xs : List A)
    → any p (map f xs) ≡ any (λ x. p (f x)) xs
any-map p f [] = refl
any-map p f (x ∷ xs) = ap (λ b. p (f x) || b) (any-map p f xs)

or-eq-false : {a b : Bool} → (a || b) ≡ false → (a ≡ false) × (b ≡ false)
or-eq-false {a} {b} h = (ground arith, ground arith)

is_less-slower :
    (a b : Option ℤ) → is_null a ≡ false → is_null b ≡ false → is_less a b ≡ ok (slower a b)
is_less-slower (some a) (some b) h k = refl
is_less-slower (some a) none h k = cc
is_less-slower none b h k = cc

is_less_row :
    (f : Vector)
    → (is_null f.tx_velocity_30d || is_null f.tx_velocity_7d) ≡ false
    → is_less (f.tx_velocity_30d) (f.tx_velocity_7d)
      ≡ ok (slower (f.tx_velocity_30d) (f.tx_velocity_7d))
is_less_row f h =
    let (a, b) = or-eq-false h in is_less-slower (f.tx_velocity_30d) (f.tx_velocity_7d) a b

-- Whether a rate is NaN, which Spark has above every number and Python above none.
abbrev pub is_nan_rate : Option Number → Bool
is_nan_rate (some nan) = true
is_nan_rate (some (ratio z d)) = false
is_nan_rate (some infinity) = false
is_nan_rate (some neg_infinity) = false
is_nan_rate none = false

is_outside_number :
    (x : Number) → is_nan_rate (some x) ≡ false → is_outside (some x) ≡ ok (outside (some x))
is_outside_number (ratio z d) h = ground arith
is_outside_number infinity h = refl
is_outside_number neg_infinity h = refl
is_outside_number nan h = cc

is_outside_lem :
    (o : Option Number) → (is_null o || is_nan_rate o) ≡ false → is_outside o ≡ ok (outside o)
is_outside_lem none h = cc
is_outside_lem (some x) h = is_outside_number x h

nan-outside : (o : Option Number) → is_nan_rate o ≡ true → outside o ≡ true
nan-outside (some nan) h = refl
nan-outside (some (ratio z d)) h = cc
nan-outside (some infinity) h = cc
nan-outside (some neg_infinity) h = cc
nan-outside none h = cc

any-nan-outside :
    (fs : List Vector)
    → any (λ f. is_nan_rate f.repayment_rate_90d) fs ≡ true
    → any (λ f. outside (f.repayment_rate_90d)) fs ≡ true
any-nan-outside [] h = cc
any-nan-outside (f ∷ fs) h = elim (Bool-cases (is_nan_rate (f.repayment_rate_90d))) [
  | inl e ↦ rw (nan-outside (f.repayment_rate_90d) e) refl
  | inr e ↦ ground (arith, any-nan-outside fs (ground arith))
]

-- Where no comparison meets a `None`, `some_row` is `any`.
some_row-any :
    (null test : Vector → Bool) (compare : Vector → Result Bool)
    → ((f : Vector) → null f ≡ false → compare f ≡ ok (test f))
    → (fs : List Vector) → any null fs ≡ false
    → some_row compare fs ≡ ok (any test fs)
unfolding some_row
some_row-any null test compare same [] h = refl
some_row-any null test compare same (f ∷ fs) h =
    rw (same f (ground arith), some_row-any null test compare same fs (ground arith)) refl

any_same : (b : Bool) (fs : List Vector) → b ≡ false → any (λ f. b) fs ≡ false
any_same b [] h = refl
any_same b (f ∷ fs) h = ground (arith, any_same b fs)

verdict-ne-true :
    (nulls : Bool) (v bad : Result Bool) (invalid : Bool)
    → nulls ≡ true
    → ¬ (verdict nulls v bad invalid ≡ ok true)
verdict-ne-true nulls (raised e) bad invalid h k = cc
verdict-ne-true nulls (ok v) (raised e) invalid h k = cc
verdict-ne-true nulls (ok v) (ok bad) invalid h k = ground arith

any-or :
    (p q : Vector → Bool) (fs : List Vector)
    → any p fs ≡ false
    → any q fs ≡ false
    → any (λ f. p f || q f) fs ≡ false
any-or p q [] h k = refl
any-or p q (f ∷ fs) h k = ground (arith, any-or p q fs)

-- The columns in their two orders.
reorder :
    (a b c d e f g h : Bool)
    → not (a || (b || (c || (d || (e || (f || (g || (h || false))))))))
      ≡ (not a && (not b && (not c && (not f && (not d && (not e && (not g && (not h && true))))))))
reorder a b c d e f g h = ground arith

module _ (snapshot_ts : ℕ) where
  abbrev pub stored : List Vector → List Features
  stored = map (insert_row snapshot_ts)

  null_columns_lem :
      (fs : List Vector)
      → not (any (λ test. any test fs) null_tests)
        ≡ all (λ column. not (any column (stored fs))) null_columns
  unfolding insert_row
  null_columns_lem fs =
      rw
        (
          any-map (λ f. is_null f.tx_velocity_7d) (insert_row snapshot_ts) fs,
          any-map (λ f. is_null f.tx_velocity_30d) (insert_row snapshot_ts) fs,
          any-map (λ f. is_null f.avg_tx_amount_30d) (insert_row snapshot_ts) fs,
          any-map (λ f. is_null f.repayment_rate_90d) (insert_row snapshot_ts) fs,
          any-map (λ f. is_null f.merchant_diversity_30d) (insert_row snapshot_ts) fs,
          any-map (λ f. is_null f.declined_rate_7d) (insert_row snapshot_ts) fs,
          any-map (λ f. is_null f.active_installments) (insert_row snapshot_ts) fs,
          any-map (λ f. is_null f.days_since_first_tx) (insert_row snapshot_ts) fs,
        )
        (reorder (any (λ f. is_null f.tx_velocity_7d) fs) (any (λ f. is_null f.tx_velocity_30d) fs)
          (any (λ f. is_null f.avg_tx_amount_30d) fs)
          (any (λ f. is_null f.merchant_diversity_30d) fs)
          (any (λ f. is_null f.declined_rate_7d) fs) (any (λ f. is_null f.repayment_rate_90d) fs)
          (any (λ f. is_null f.active_installments) fs)
          (any (λ f. is_null f.days_since_first_tx) fs))

  -- Its value where no column has a `None` and no rate is NaN.
  gate_lem :
      (fs : List Vector)
      → any (λ test. any test fs) null_tests ≡ false
      → any (λ f. is_nan_rate f.repayment_rate_90d) fs ≡ false
      → gate snapshot_ts (snapshot_ts + snapshot_interval_hours * 3600) fs
        ≡ ok (quality_gate (stored fs))
  unfolding gate quality_gate insert_row
  gate_lem fs h no_nan =
      let n7 : any (λ f. is_null f.tx_velocity_7d) fs ≡ false = ground arith in
      let n30 : any (λ f. is_null f.tx_velocity_30d) fs ≡ false = ground arith in
      let no_rate : any (λ f. is_null f.repayment_rate_90d) fs ≡ false = ground arith in
      let less : some_row (λ f. is_less (f.tx_velocity_30d) (f.tx_velocity_7d)) fs
          ≡ ok (any (λ f. slower (f.tx_velocity_30d) (f.tx_velocity_7d)) fs) =
        some_row-any (λ f. is_null f.tx_velocity_30d || is_null f.tx_velocity_7d)
          (λ f. slower (f.tx_velocity_30d) (f.tx_velocity_7d))
          (λ f. is_less (f.tx_velocity_30d) (f.tx_velocity_7d)) (λ f k. is_less_row f k) fs
          (any-or (λ f. is_null f.tx_velocity_30d) (λ f. is_null f.tx_velocity_7d) fs n30 n7) in
      let bad : some_row (λ f. is_outside (f.repayment_rate_90d)) fs
          ≡ ok (any (λ f. outside (f.repayment_rate_90d)) fs) =
        some_row-any (λ f. is_null f.repayment_rate_90d || is_nan_rate f.repayment_rate_90d)
          (λ f. outside (f.repayment_rate_90d)) _ (λ f k. is_outside_lem (f.repayment_rate_90d) k)
          fs
          (any-or (λ f. is_null f.repayment_rate_90d) (λ f. is_nan_rate f.repayment_rate_90d) fs
            no_rate no_nan) in
      let later : leb (snapshot_ts + 14400) snapshot_ts ≡ false = ground arith in
      rw
        (
          less,
          bad,
          null_columns_lem fs,
          later,
          any-map (λ f. slower (f.tx_velocity_30d) (f.tx_velocity_7d)) (insert_row snapshot_ts) fs,
          any-map (λ f. outside (f.repayment_rate_90d)) (insert_row snapshot_ts) fs,
          any-map (λ f. leb f.valid_to f.valid_from) (insert_row snapshot_ts) fs,
          any_same (leb (snapshot_ts + 14400) snapshot_ts) fs later,
        )
        refl

  nan-quality_gate :
      (fs : List Vector)
      → any (λ f. is_nan_rate f.repayment_rate_90d) fs ≡ true
      → quality_gate (stored fs) ≡ false
  unfolding quality_gate insert_row
  nan-quality_gate fs h =
      let bad : any (λ f. outside (f.repayment_rate_90d)) (stored fs) ≡ true =
        any-map (λ f. outside (f.repayment_rate_90d)) (insert_row snapshot_ts) fs
        ∙ any-nan-outside fs h in
      ground arith

  pub gate-eq-quality_gate :
      (fs : List Vector)
      → ((gate snapshot_ts (snapshot_ts + snapshot_interval_hours * 3600) fs ≡ ok true)
          × (any (λ f. is_nan_rate f.repayment_rate_90d) fs ≡ false))
        ↔ (quality_gate (stored fs) ≡ true)
  unfolding gate quality_gate
  gate-eq-quality_gate fs = elim (Bool-cases (any (λ f. is_nan_rate f.repayment_rate_90d) fs)) [
    | inl n ↦ let refused = nan-quality_gate fs n in ((λ (h, k). absurd (cc)), (λ h. absurd (cc)))
    | inr n ↦ elim (Bool-cases (any (λ test. any test fs) null_tests)) [
      | inl e ↦
          let refused =
            verdict-ne-true (any (λ test. any test fs) null_tests)
              (some_row (λ f. is_less (f.tx_velocity_30d) (f.tx_velocity_7d)) fs)
              (some_row (λ f. is_outside (f.repayment_rate_90d)) fs)
              (leb (snapshot_ts + 14400) snapshot_ts) e in
          let nulls : all (λ column. not (any column (stored fs))) null_columns ≡ false =
            sym (null_columns_lem fs) ∙ ap not e in
          ((λ (h, k). absurd (refused h)), (λ h. absurd (ground arith)))
      | inr e ↦ rw (gate_lem fs e n) ((λ (h, k). ground arith), (λ h. (rw h refl, n)))
    ]
  ]
