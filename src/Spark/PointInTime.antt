-- ===== src/Spark/PointInTime.antt =====
-- What the features cannot see: anything after the snapshot.
use paystream.Base.{
  ℕ, ◌*◌, ◌/◌, ◌≤◌, ◌≡◌, refl, ap, ◌∙◌, Bool, true, String, List, [], ◌∷◌, All, length, filter, map,
  Option, none, some, leb, arith, if◌then◌else◌, ◌==◌, Bool-cases, inl, inr, fun_ext, All-filter,
  length-map,
}
use paystream.Base.Int.{pos}
use paystream.Base.Number.{Number, ratio}
use paystream.Spark.{
  Transaction, Repayment, Installment, Silver, is_due, on_time, paid_by, group_rate, repayment_rate,
  read_silver, main, gated, fill, rate, distinct, compute_features, features_of, own_repayments,
}

filter_idem {ℓ} : {A : Type ℓ} (p : A → Bool) (xs : List A) → filter p (filter p xs) ≡ filter p xs
filter_idem p [] = refl
filter_idem p (x ∷ xs) = elim (Bool-cases (p x)) [
  | inl e ↦ rw e (rw e (ap (◌∷◌ x) (filter_idem p xs)))
  | inr e ↦ rw e (filter_idem p xs)
]

filter-map {ℓ} :
    {A : Type ℓ} (p : A → Bool) (f : A → A) (xs : List A)
    → ((x : A) → p (f x) ≡ p x)
    → filter p (map f xs) ≡ map f (filter p xs)
filter-map p f [] h = refl
filter-map p f (x ∷ xs) h = elim (Bool-cases (p x)) [
  | inl e ↦ rw (h x) (rw e (ap (◌∷◌ (f x)) (filter-map p f xs h)))
  | inr e ↦ rw (h x) (rw e (filter-map p f xs h))
]

-- The payment of a repayment as it was known at `s`.
abbrev pub known_at : ℕ → Option ℕ → Option ℕ
known_at s none = none
known_at s (some t) = if leb t s then some t else none

abbrev pub as_known : ℕ → Repayment → Repayment
as_known s r = record r { paid_at = known_at s r.paid_at }

paid_by-known_at :
    (s limit : ℕ) (paid : Option ℕ)
    → limit ≤ s
    → paid_by limit (known_at s paid) ≡ paid_by limit paid
paid_by-known_at s limit none h = refl
paid_by-known_at s limit (some t) h = ground arith

-- The snapshot is after the midnight of each day that it counts as due.
due_before : (s : ℕ) (r : Repayment) → is_due s r ≡ true → r.due_date * 86400 ≤ s
due_before s r h = ground arith

on_time_known :
    (s : ℕ) (due : List Repayment)
    → All (λ r. is_due s r ≡ true) due
    → length (filter on_time (map (as_known s) due)) ≡ length (filter on_time due)
on_time_known s [] h = refl
on_time_known s (r ∷ due) (h, hs) =
    let same : on_time (as_known s r) ≡ on_time r =
      paid_by-known_at s (r.due_date * 86400) (r.paid_at) (due_before s r h) in
    let ih = on_time_known s due hs in ground (arith, same, ih)

group_rate_known :
    (s : ℕ) (due : List Repayment)
    → All (λ r. is_due s r ≡ true) due
    → group_rate (map (as_known s) due) ≡ group_rate due
group_rate_known s [] h = refl
group_rate_known s (r ∷ due) h =
    ap (λ n. some (rate n (length (map (as_known s) (r ∷ due))))) (on_time_known s (r ∷ due) h)
    ∙ ap (λ d. some (rate (length (filter on_time (r ∷ due))) d))
        (length-map (as_known s) (r ∷ due))

repayment_rate_known :
    (s : ℕ) (rs : List Repayment) → repayment_rate s (map (as_known s) rs) ≡ repayment_rate s rs
unfolding repayment_rate
repayment_rate_known s rs =
    ap group_rate (filter-map (is_due s) (as_known s) rs (λ r. refl))
    ∙ group_rate_known s (filter (is_due s) rs) (All-filter (is_due s) rs)

-- Silver without the transactions and installments created after `s` and the payments made after it.
-- The row of a repayment is kept whenever it was created, as the job keeps it.
abbrev pub known : ℕ → Silver → Silver
known s silver = record {
  transactions = filter (λ t. leb t.created_at s) (silver.transactions);
  repayments = map (as_known s) (silver.repayments);
  installments = filter (λ i. leb i.created_at s) (silver.installments);
}

module _ (s hours : ℕ) (version : String) where
  compute_features_known :
      (ts : List Transaction) (rs : List Repayment) (is : List Installment)
      → compute_features s hours version
          (record { transactions = ts; repayments = map (as_known s) rs; installments = is })
        ≡ compute_features s hours version
            (record { transactions = ts; repayments = rs; installments = is })
  unfolding compute_features features_of
  compute_features_known ts rs is =
      let silver : Silver = record { transactions = ts; repayments = rs; installments = is } in
      let with_rate = λ (u : ℕ) (o : Option Number). record (features_of s hours version silver u) {
        repayment_rate_90d = fill (ratio (pos 0) 0) o;
      } in
      let row = λ (u : ℕ).
        ap (λ rs'. with_rate u (repayment_rate s rs'))
          (filter-map (λ r. r.user_id == u) (as_known s) rs (λ r. refl))
        ∙ ap (with_rate u) (repayment_rate_known s (own_repayments u silver)) in
      ap (λ f. map f (distinct (map (λ t. t.user_id) ts))) (fun_ext row)

  pub main-known :
      (silver : Silver) → main s hours version (known s silver) ≡ main s hours version silver
  unfolding main read_silver
  main-known silver =
      let by_now = λ (t : Transaction). leb t.created_at s in
      let installed = λ (i : Installment). leb i.created_at s in
      let scheduled = λ (r : Repayment). leb r.due_date (s / 86400) in
      let run = λ (ts : List Transaction) (rs : List Repayment) (is : List Installment). gated ts (
        compute_features s hours version
          (record { transactions = ts; repayments = rs; installments = is })) in
      let ts = filter by_now (silver.transactions) in
      let rs = filter scheduled (silver.repayments) in
      let is = filter installed (silver.installments) in
      let rs_known = filter scheduled (map (as_known s) (silver.repayments)) in
      let is_known = filter installed (filter installed (silver.installments)) in
      ap (λ ts'. run ts' rs_known is_known) (filter_idem by_now (silver.transactions))
      ∙ ap (λ rs'. run ts rs' is_known)
          (filter-map scheduled (as_known s) (silver.repayments) (λ r. refl))
      ∙ ap (λ is'. run ts (map (as_known s) rs) is') (filter_idem installed (silver.installments))
      ∙ ap (gated ts) (compute_features_known ts rs is)
