-- ===== src/Spark/Soundness.antt =====
-- What the quality gate of spark/jobs/credit_feature_engineer.py lets through.
use paystream.Base.{
  ◌+◌, ◌≤◌, ◌<◌, ◌≡◌, refl, Bool, true, false, not, ◌||◌, List, [], ◌∷◌, All, any, all, leb,
  and-eq-true, Option, none, some, arith,
}
use paystream.Base.Int.{ℤ, pos, negsuc, ◌≤ℤ◌}
use paystream.Base.Number.{Number, ratio, infinity, neg_infinity, nan}
use paystream.Spark.{Features, is_null, null_columns, slower, outside, quality_gate}

-- a ≥ b, where both are there.
abbrev pub AtLeast : Option ℤ → Option ℤ → Type 0
AtLeast none b = Unit
AtLeast (some a) none = Unit
AtLeast (some a) (some b) = b ≤ℤ a

-- A fraction from 0 to 1, where it is there.
abbrev pub IsRate : Option Number → Type 0
IsRate none = Unit
IsRate (some (ratio (pos n) d)) = n ≤ d + 1
IsRate (some (ratio (negsuc n) d)) = ⊥
IsRate (some infinity) = ⊥
IsRate (some neg_infinity) = ⊥
IsRate (some nan) = ⊥

abbrev pub IsThere : {A : Type 0} → Option A → Type 0
IsThere none = ⊥
IsThere (some a) = Unit

-- No NULL, the 30 days at least as fast as the 7, a rate from 0 to 1, and a validity that is not empty.
pub record IsSound (f : Features) : Type 0 where
  pub velocity_7d : IsThere (f.tx_velocity_7d)
  pub velocity_30d : IsThere (f.tx_velocity_30d)
  pub amount : IsThere (f.avg_tx_amount_30d)
  pub repayment : IsThere (f.repayment_rate_90d)
  pub diversity : IsThere (f.merchant_diversity_30d)
  pub declined : IsThere (f.declined_rate_7d)
  pub installments : IsThere (f.active_installments)
  pub age : IsThere (f.days_since_first_tx)
  pub steady : AtLeast (f.tx_velocity_30d) (f.tx_velocity_7d)
  pub rate : IsRate (f.repayment_rate_90d)
  pub valid : f.valid_from < f.valid_to

there : {A : Type 0} (o : Option A) → is_null o ≡ false → IsThere o
there none h = absurd cc
there (some a) h = tt

at_least : (a b : Option ℤ) → slower a b ≡ false → AtLeast a b
at_least none b h = tt
at_least (some a) none h = tt
at_least (some a) (some b) h = ground arith

outside-IsRate : (o : Option Number) → outside o ≡ false → IsRate o
outside-IsRate none h = tt
outside-IsRate (some (ratio (pos n) d)) h = ground arith
outside-IsRate (some (ratio (negsuc n) d)) h = absurd cc
outside-IsRate (some infinity) h = absurd cc
outside-IsRate (some neg_infinity) h = absurd cc
outside-IsRate (some nan) h = absurd cc

none-any :
    (p : Features → Bool) (fs : List Features) → not (any p fs) ≡ true → All (λ f. p f ≡ false) fs
none-any p [] h = tt
none-any p (f ∷ fs) h = (ground arith, none-any p fs (ground arith))

zip_columns :
    (column : Features → Bool) (columns : List (Features → Bool)) (fs : List Features)
    → All (λ f. column f ≡ false) fs
    → All (λ f. any (λ c. c f) columns ≡ false) fs
    → All (λ f. (column f || any (λ c. c f) columns) ≡ false) fs
zip_columns column columns [] h k = tt
zip_columns column columns (f ∷ fs) (h, hs) (k, ks) =
    (rw (h, k) refl, zip_columns column columns fs hs ks)

no_columns : (fs : List Features) → All (λ f. false ≡ false) fs
no_columns [] = tt
no_columns (f ∷ fs) = (refl, no_columns fs)

none-columns :
    (columns : List (Features → Bool)) (fs : List Features)
    → all (λ column. not (any column fs)) columns ≡ true
    → All (λ f. any (λ column. column f) columns ≡ false) fs
none-columns [] fs h = no_columns fs
none-columns (column ∷ columns) fs h =
    let (here, later) = and-eq-true _ _ h in
    zip_columns column columns fs (none-any column fs here) (none-columns columns fs later)

assemble :
    (fs : List Features)
    → All (λ f. any (λ column. column f) null_columns ≡ false) fs
    → All (λ f. slower (f.tx_velocity_30d) (f.tx_velocity_7d) ≡ false) fs
    → All (λ f. outside (f.repayment_rate_90d) ≡ false) fs
    → All (λ f. leb f.valid_to f.valid_from ≡ false) fs
    → All IsSound fs
assemble [] a b c d = tt
assemble (f ∷ fs) (a, as_) (b, bs) (c, cs) (d, ds) = (
  record {
    velocity_7d = there (f.tx_velocity_7d) (ground arith);
    velocity_30d = there (f.tx_velocity_30d) (ground arith);
    amount = there (f.avg_tx_amount_30d) (ground arith);
    repayment = there (f.repayment_rate_90d) (ground arith);
    diversity = there (f.merchant_diversity_30d) (ground arith);
    declined = there (f.declined_rate_7d) (ground arith);
    installments = there (f.active_installments) (ground arith);
    age = there (f.days_since_first_tx) (ground arith);
    steady = at_least _ _ b;
    rate = outside-IsRate _ c;
    valid = ground (arith, d);
  },
  assemble fs as_ bs cs ds,
)

-- Rows that pass the gate have no NULL feature, a velocity of 30 days that is at least that of 7, a
-- repayment rate from 0 to 1, and an end of validity after its start.
pub quality_gate-IsSound : (fs : List Features) → quality_gate fs ≡ true → All IsSound fs
unfolding quality_gate
quality_gate-IsSound fs h =
    let (nulls, h1) = and-eq-true (all (λ column. not (any column fs)) null_columns) _ h in
    let (slow, h2) = and-eq-true _ _ h1 in
    let (out, invalid) = and-eq-true _ _ h2 in
    assemble fs (none-columns null_columns fs nulls) (none-any _ fs slow) (none-any _ fs out)
      (none-any _ fs invalid)
