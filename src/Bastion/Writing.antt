-- ===== src/Bastion/Writing.antt =====
-- What a run of scripts/compute_features.py writes.
use paystream.Base.{
  ℕ, ◌+◌, ◌*◌, ◌≡◌, ◌≢◌, ◌⊎◌, refl, sym, ap, ◌∙◌, Bool, true, false, List, [], ◌∷◌, ◌++◌, map,
  append-nil, append_assoc, any, Bool-cases, inl, inr,
}
use paystream.Base.Task.{Exn, Result, ok, raised, system_exit, Result-cases}
use paystream.Base.Batches.{batches}
use paystream.Spark.{Features, quality_gate}
use paystream.Bastion.{
  Vector, Cutoffs, cutoffs_of, gate, snapshot_interval_hours, Effect, inserted, uploaded, marked,
  insert_batches, run_command, main,
}
use paystream.Bastion.Gate.{stored, is_nan_rate, gate-eq-quality_gate}

-- At most this one effect.
abbrev pub MayBe : Effect → List Effect → Type 0
MayBe e l = (l ≡ []) ⊎ (l ≡ e ∷ [])

module _ (takes : List Effect → Effect → Bool) where
  run_command_lem :
      (effect : Effect) (log : List Effect)
      → (copies : List Effect) × (run_command takes effect log ≡ (ok tt, log ++ copies))
        × MayBe effect copies
  run_command_lem effect log = elim (Bool-cases (takes log effect)) [
    | inl e ↦ (effect ∷ [], rw e refl, inr refl)
    | inr e ↦ ([], rw e (ap (λ l. (ok tt, l)) (sym (append-nil log))), inl refl)
  ]

  -- The inserts, where the database takes each.
  insert_batches_lem :
      ((log : List Effect) (b : List Features) → takes log (inserted b) ≡ true)
      → (bs : List (List Features)) (log : List Effect)
      → insert_batches takes bs log ≡ (ok tt, log ++ map inserted bs)
  unfolding insert_batches
  insert_batches_lem taken [] log = ap (λ l. (ok tt, l)) (sym (append-nil log))
  insert_batches_lem taken (b ∷ bs) log = rw (taken log b) (
      insert_batches_lem taken bs (log ++ inserted b ∷ [])
      ∙ ap (λ l. (ok tt, l)) (append_assoc log (inserted b ∷ []) (map inserted bs)))

  module _ (max_ts : Result ℕ) (query : Cutoffs → Result (List Vector)) (count : Result ℕ)
      (log : List Effect) where
    -- The rows are in ClickHouse, in batches, and what S3 took of its copy comes after.
    abbrev pub Wrote : ℕ → List Vector → Type 0
    Wrote snapshot_ts rows =
        (copy marker : List Effect) × (main takes max_ts query count log ≡ (
          ok tt,
          (log ++ map inserted (batches 5000 (stored snapshot_ts rows))) ++ (copy ++ marker),
        ))
        × MayBe (uploaded (stored snapshot_ts rows)) copy
        × MayBe marked marker

    abbrev pub Exits : Type 0
    Exits = (e : Exn) × (main takes max_ts query count log ≡ (raised e, log))

    module _ (snapshot_ts n : ℕ)
        (taken : (log : List Effect) (b : List Features) → takes log (inserted b) ≡ true)
        (et : max_ts ≡ ok snapshot_ts) (ec : count ≡ ok n) where
      not_passed :
          (rows : List Vector) {r : Result Bool}
          → gate snapshot_ts (snapshot_ts + snapshot_interval_hours * 3600) rows ≡ r
          → r ≢ ok true
          → ¬ (quality_gate (stored snapshot_ts rows) ≡ true)
      not_passed rows e other h = other (sym e ∙ ((gate-eq-quality_gate snapshot_ts rows).1 h).0)

      passed_lem :
          (f : Vector) (fs : List Vector)
          → query (cutoffs_of snapshot_ts) ≡ ok (f ∷ fs)
          → gate snapshot_ts (snapshot_ts + snapshot_interval_hours * 3600) (f ∷ fs) ≡ ok true
          → Wrote snapshot_ts (f ∷ fs)
      unfolding main
      passed_lem f fs eq er =
          let rows = stored snapshot_ts (f ∷ fs) in
          let log' = log ++ map inserted (batches 5000 rows) in
          let (c1, e1, h1) = run_command_lem (uploaded rows) log' in
          let (c2, e2, h2) = run_command_lem marked (log' ++ c1) in
          (
            c1,
            c2,
            rw (et, eq, er, insert_batches_lem taken (batches 5000 rows) log, ec, e1, e2)
                (ap (λ l. (ok tt, l)) (append_assoc log' c1 c2)),
            h1,
            h2,
          )

    -- Where ClickHouse answers, without a rate that is NaN, and takes each insert, a run whose rows are
    -- some and pass the gate of the Spark job returns: the rows are inserted, in batches of 5000, and
    -- after them come the copy of the same rows, if S3 takes it, and the marker, if it takes that. Any
    -- other run raises, and writes nothing.
    pub main-Wrote :
        (snapshot_ts n : ℕ) (rows : List Vector)
        → any (λ f. is_nan_rate f.repayment_rate_90d) rows ≡ false
        → ((log : List Effect) (b : List Features) → takes log (inserted b) ≡ true)
        → max_ts ≡ ok snapshot_ts
        → query (cutoffs_of snapshot_ts) ≡ ok rows
        → count ≡ ok n
        → ((rows ≢ []) × (quality_gate (stored snapshot_ts rows) ≡ true) × Wrote snapshot_ts rows)
          ⊎ (¬ ((rows ≢ []) × (quality_gate (stored snapshot_ts rows) ≡ true)) × Exits)
    unfolding main
    main-Wrote snapshot_ts n [] no_nan taken et eq ec =
        inr ((λ h. h.0 refl), (system_exit, rw (et, eq) refl))
    main-Wrote snapshot_ts n (f ∷ fs) no_nan taken et eq ec =
        elim (Result-cases
          (gate snapshot_ts (snapshot_ts + snapshot_interval_hours * 3600) (f ∷ fs))) [
            | inr (e, er) ↦ inr (
              (λ h. not_passed snapshot_ts n taken et ec (f ∷ fs) er (λ k. cc) (h.1)),
              (e, rw (et, eq, er) refl),
            )
            | inl (false, er) ↦ inr (
              (λ h. not_passed snapshot_ts n taken et ec (f ∷ fs) er (λ k. cc) (h.1)),
              (system_exit, rw (et, eq, er) refl),
            )
            | inl (true, er) ↦ inl (
              (λ e. cc),
              (gate-eq-quality_gate snapshot_ts (f ∷ fs)).0 (er, no_nan),
              passed_lem snapshot_ts n taken et ec f fs eq er,
            )
          ]
