-- ===== src/Pipeline/Writing.antt =====
-- What a run of the pipeline writes to the feature store.
use mathlib.Core.Path.{subst₂}
use mathlib.Core.List.{flatten}
use paystream.Base.{
  suc, subst, inl, inr, ℕ, ◌+◌, ◌≤◌, ◌<◌, ◌≡◌, ◌≢◌, refl, ap, sym, ◌∙◌, Bool, String, Option, none,
  some, List, [], ◌∷◌, ◌++◌, map, append_assoc, append-nil, All, length, arith,
}
use paystream.Base.Task.{
  raised, key_error, Result, ok, Result-cases, Task, lift, insert, ◌>>=◌, ◌>>◌, >>=-eq-ok,
  insert-eq-ok,
}
use paystream.Base.Batches.{batches, batches_lem}
use paystream.Base.Number.{Value}
use paystream.Features.{Row, lookup}
use paystream.Pipeline.{
  Write, batch, Stored, Parsers, validate_features, column, columns, stored_columns, store_row,
  store_rows, insert_all, or_no_rows, report, main,
}
use paystream.Pipeline.Gate.{Validated, validate_features_lem}

or_no_rows-eq-ok :
    (rows kept : List Row) (log log' : List Write)
    → or_no_rows rows log ≡ (ok kept, log')
    → (kept ≡ rows) × (log' ≡ log) × (rows ≢ [])
unfolding or_no_rows
or_no_rows-eq-ok [] kept log log' h = ground arith
or_no_rows-eq-ok (row ∷ rows) kept log log' h = (ground arith, ground arith, λ e. cc)

lift-eq-ok :
    {A : Type 0} (r : Result A) (a : A) (log log' : List Write)
    → lift r log ≡ (ok a, log')
    → (r ≡ ok a) × (log' ≡ log)
lift-eq-ok r a log log' h = (ground arith, ground arith)

-- The interval that a stored row covers.
abbrev pub Covers : ℕ → Stored → Type 0
Covers snapshot_ts s =
    (s.valid_from ≡ snapshot_ts) × (s.valid_to ≡ snapshot_ts + 14400) × (s.valid_from < s.valid_to)

-- The values of a row in the columns of the feature store, each in the place of its name.
abbrev pub values_of : Row → List (Option Value)
values_of row =
    lookup "tx_velocity_7d" row
    ∷ lookup "tx_velocity_30d" row
    ∷ lookup "avg_tx_amount_30d" row
    ∷ lookup "repayment_rate_90d" row
    ∷ lookup "merchant_diversity_30d" row
    ∷ lookup "declined_rate_7d" row
    ∷ lookup "active_installments" row
    ∷ lookup "days_since_first_tx" row
    ∷ []

-- The row that is stored for a row.
pub record StoredFor (snapshot_ts : ℕ) (row : Row) (s : Stored) : Type 0 where
  pub user : lookup "user_id" row ≡ some (s.user_id)
  pub values : values_of row ≡ map some (s.features)
  pub snapshot : s.snapshot_ts ≡ snapshot_ts
  pub version : s.feature_version ≡ "v2.1.0"
  pub covers : Covers snapshot_ts s

-- The rows stored for rows, one by one.
abbrev pub StoredForAll : ℕ → List Row → List Stored → Type 0
StoredForAll snapshot_ts [] [] = Unit
StoredForAll snapshot_ts [] (s ∷ ss) = ⊥
StoredForAll snapshot_ts (row ∷ rows) [] = ⊥
StoredForAll snapshot_ts (row ∷ rows) (s ∷ ss) =
    StoredFor snapshot_ts row s × StoredForAll snapshot_ts rows ss

StoredForAll-Covers :
    (snapshot_ts : ℕ) (rows : List Row) (stored : List Stored)
    → StoredForAll snapshot_ts rows stored
    → All (Covers snapshot_ts) stored × (length stored ≡ length rows)
StoredForAll-Covers snapshot_ts [] [] h = (tt, refl)
StoredForAll-Covers snapshot_ts [] (s ∷ ss) h = absurd h
StoredForAll-Covers snapshot_ts (row ∷ rows) [] h = absurd h
StoredForAll-Covers snapshot_ts (row ∷ rows) (s ∷ ss) (k, ks) =
    let (covered, same) = StoredForAll-Covers snapshot_ts rows ss ks in
    ((k.covers, covered), ap suc same)

found_lem :
    (o : Option Value) (v : Value)
    → (elim o [ none ↦ raised key_error | some w ↦ ok w ]) ≡ ok v
    → o ≡ some v
found_lem none v h = cc
found_lem (some w) v h = ground arith

column-eq-ok :
    (name : String) (row : Row) (v : Value) → column name row ≡ ok v → lookup name row ≡ some v
unfolding column
column-eq-ok name row v h = found_lem (lookup name row) v h

columns-eq-ok :
    (names : List String) (row : Row) (vs : List Value)
    → columns names row ≡ ok vs
    → map (λ name. lookup name row) names ≡ map some vs
unfolding columns
columns-eq-ok [] row vs h = let e : [] ≡ vs = cc in ap (map some) e
columns-eq-ok (name ∷ names) row vs h = elim (Result-cases (column name row)) [
  | inr (x, e) ↦ ground arith
  | inl (v, e) ↦ elim (Result-cases (columns names row)) [
    | inr (x, e') ↦ ground arith
    | inl (ws, e') ↦
        let all : v ∷ ws ≡ vs = ground arith in
        subst (λ l. map (λ n. lookup n row) (name ∷ names) ≡ map some l) all
          (rw (column-eq-ok name row v e, columns-eq-ok names row ws e') refl)
  ]
]

store_row-StoredFor :
    (snapshot_ts : ℕ) (row : Row) (s : Stored)
    → store_row snapshot_ts row ≡ ok s
    → StoredFor snapshot_ts row s
unfolding store_row
store_row-StoredFor snapshot_ts row s h = elim (Result-cases (column "user_id" row)) [
  | inr (x, e) ↦ ground arith
  | inl (user_id, e) ↦ elim (Result-cases (columns stored_columns row)) [
    | inr (x, e') ↦ ground arith
    | inl (values, e') ↦ record {
      user = column-eq-ok "user_id" row user_id e ∙ ground arith;
      values = columns-eq-ok stored_columns row values e' ∙ ground arith;
      snapshot = ground arith;
      version = ground arith;
      covers = ground arith;
    }
  ]
]

store_rows-StoredForAll :
    (snapshot_ts : ℕ) (rows : List Row) (stored : List Stored)
    → store_rows snapshot_ts rows ≡ ok stored
    → StoredForAll snapshot_ts rows stored
unfolding store_rows
store_rows-StoredForAll snapshot_ts [] stored h =
    let e : [] ≡ stored = cc in subst (λ l. StoredForAll snapshot_ts [] l) e tt
store_rows-StoredForAll snapshot_ts (row ∷ rows) stored h =
    elim (Result-cases (store_row snapshot_ts row)) [
      | inr (x, e) ↦ ground arith
      | inl (s, e) ↦ elim (Result-cases (store_rows snapshot_ts rows)) [
        | inr (x, e') ↦ ground arith
        | inl (ss, e') ↦
            let all : s ∷ ss ≡ stored = ground arith in
            subst (λ l. StoredForAll snapshot_ts (row ∷ rows) l) all
              (
                store_row-StoredFor snapshot_ts row s e,
                store_rows-StoredForAll snapshot_ts rows ss e',
              )
      ]
    ]

module _ (accepts : List Write → Write → Bool) where
  insert_all_lem :
      (bs : List (List Stored)) (log log' : List Write) {u : Unit {0}}
      → insert_all accepts bs log ≡ (ok u, log')
      → log' ≡ log ++ map batch bs
  unfolding insert_all
  insert_all_lem [] log log' h = rw append-nil (ground arith)
  insert_all_lem (b ∷ bs) log log' h =
      let (u, mid, w, k) =
        >>=-eq-ok (insert accepts (batch b)) (λ _. insert_all accepts bs) log log' h in
      insert_all_lem bs mid log' k
      ∙ (ap (λ l. l ++ map batch bs) (insert-eq-ok accepts (batch b) log mid w)
          ∙ append_assoc log (batch b ∷ []) (map batch bs))

  module _ (parsers : Parsers) (count_of : List Write → Result (List ℕ)) where
    report-log :
        (log log' : List Write) {u : Unit {0}}
        → report parsers accepts count_of log ≡ (ok u, log')
        → log' ≡ log
    unfolding report
    report-log log log' h = sym (ap (λ r. r.1) h)

    -- What a run that ends without an exception has done.
    pub record Ran (snapshot_ts : ℕ) (features : List Row) (log log' : List Write) : Type 0 where
      pub valid : List Row
      pub mid : List Write
      pub stored : List Stored
      pub validated : Validated parsers features valid log mid
      pub some_valid : valid ≢ []
      pub one_each : length stored ≡ length valid
      pub covers : All (Covers snapshot_ts) stored
      pub stored_for : StoredForAll snapshot_ts valid stored
      pub written : log' ≡ mid ++ map batch (batches 1000 stored)
      pub in_order : flatten (batches 1000 stored) ≡ stored
      pub small : All (λ b. length b ≤ 1000) (batches 1000 stored)

    -- A run that ends without an exception has written the results of the validation first, then one
    -- row for each row that it kept, at least one, in order and in batches of at most 1000. Each has the
    -- user and the eight features of its row, each in its place, with the snapshot and the version
    -- v2.1.0, and is valid from the snapshot for four hours.
    pub main-Ran :
        (snapshot_ts : ℕ) (features : List Row) (log log' : List Write) {u : Unit {0}}
        → main parsers accepts count_of snapshot_ts features log ≡ (ok u, log')
        → Ran snapshot_ts features log log'
    unfolding main
    main-Ran snapshot_ts features log log' {u} h =
        let (computed, l1, e1, h1) = >>=-eq-ok (or_no_rows features) store_valid log log' h in
        let (valid, l2, e2, h2) =
          >>=-eq-ok (validate_features parsers accepts computed) store_kept l1 log' h1 in
        let (kept, l3, e3, h3) = >>=-eq-ok (or_no_rows valid) store l2 log' h2 in
        let (stored, l4, e4, h4) =
          >>=-eq-ok (lift (store_rows snapshot_ts kept))
            (λ vals. insert_all accepts (batches 1000 vals) >> report parsers accepts count_of) l3
            log' h3 in
        let (_, l5, e5', h5) =
          >>=-eq-ok (insert_all accepts (batches 1000 stored))
            (λ _. report parsers accepts count_of) l4 log' h4 in
        let all : computed ≡ features = (or_no_rows-eq-ok features computed log l1 e1).0 in
        let same : l1 ≡ log = (or_no_rows-eq-ok features computed log l1 e1).1 in
        let (all', same', some') = or_no_rows-eq-ok valid kept l2 l3 e3 in
        let (e5, same'') = lift-eq-ok (store_rows snapshot_ts kept) stored l3 l4 e4 in
        let kept_for = store_rows-StoredForAll snapshot_ts kept stored e5 in
        let covered = StoredForAll-Covers snapshot_ts kept stored kept_for in
        let batched = batches_lem 1000 stored (omega arith) in
        record {
          valid = valid;
          mid = l2;
          stored = stored;
          validated =
              subst₂ (λ c l. Validated parsers c valid l l2) all same
                (validate_features_lem parsers accepts computed valid l1 l2 e2);
          some_valid = some';
          one_each = covered.1 ∙ ap length all';
          covers = covered.0;
          stored_for = subst (λ l. StoredForAll snapshot_ts l stored) all' kept_for;
          written =
              report-log l5 log' h5
              ∙ insert_all_lem (batches 1000 stored) l4 l5 e5'
              ∙ ap (λ l. l ++ map batch (batches 1000 stored)) (same'' ∙ same');
          in_order = batched.0;
          small = batched.1;
        }
      where
        store : List Row → Task Write (Unit {0})
        store kept = do
          vals ← lift (store_rows snapshot_ts kept)
          insert_all accepts (batches 1000 vals)
          report parsers accepts count_of

        store_kept : List Row → Task Write (Unit {0})
        store_kept valid = do kept ← or_no_rows valid; store kept

        store_valid : List Row → Task Write (Unit {0})
        store_valid computed = do
          valid ← validate_features parsers accepts computed
          store_kept valid
