-- ===== src/FeatureDag/Gated.antt =====
-- What a run of the DAG comes to.
use mathlib.Core.List.{flatten}
use paystream.Base.{
  ℕ, zero, suc, ◌≡◌, ◌≢◌, refl, sym, ◌∙◌, Bool, true, false, List, [], ◌∷◌, ◌++◌, map, any, length,
  inl, inr, arith,
}
use paystream.Base.Task.{Exn, Result, ok, raised, continue, Result-cases}
use paystream.Base.Batches.{batches}
use paystream.Features.{Row}
use paystream.Pipeline.{Write, dq_result, batch, Stored, Parsers, main}
use paystream.Pipeline.Writing.{Ran, main-Ran}
use paystream.FeatureDag.{require_zero, run_ge_validation, verify_feature_store, verify, dag_run}

-- A write of rows to the feature store.
abbrev pub is_rows : Write → Bool
is_rows (dq_result r) = false
is_rows (batch []) = false
is_rows (batch (s ∷ ss)) = true

-- A table to which rows have been written has a count above zero.
abbrev pub CountsRows : (List Write → Result (List ℕ)) → Type 0
CountsRows count_of =
    (log : List Write) → any is_rows log ≡ true → (n : ℕ) × (count_of log ≡ ok (suc n ∷ []))

any-append :
    {A : Type 0} (p : A → Bool) (xs ys : List A) → any p ys ≡ true → any p (xs ++ ys) ≡ true
any-append p [] ys h = h
any-append p (x ∷ xs) ys h = rw (any-append p xs ys h) (ground arith)

any-batches : (bs : List (List Stored)) → flatten bs ≢ [] → any is_rows (map batch bs) ≡ true
unfolding flatten
any-batches [] h = absurd (h refl)
any-batches ([] ∷ bs) h = any-batches bs h
any-batches ((s ∷ ss) ∷ bs) h = refl

as_many :
    (rows : List Row) (stored : List Stored) → length stored ≡ length rows → rows ≢ [] → stored ≢ []
as_many [] stored e h = absurd (h refl)
as_many (row ∷ rows) [] e h = absurd (omega arith)
as_many (row ∷ rows) (s ∷ ss) e h = λ k. cc

require_zero-eq-ok :
    (r : Result (List ℕ)) {u : Unit {0}} → require_zero r ≡ ok u → (ns : List ℕ) × (r ≡ ok (0 ∷ ns))
require_zero-eq-ok (raised e) h = absurd cc
require_zero-eq-ok (ok []) h = absurd cc
require_zero-eq-ok (ok (zero ∷ ns)) h = (ns, refl)
require_zero-eq-ok (ok (suc n ∷ ns)) h = absurd cc

module _ (parsers : Parsers) (accepts : List Write → Write → Bool)
    (count_of : List Write → Result (List ℕ)) where
  -- What becomes of a run: behind an open gate, that of the script; behind a closed one, nothing.
  pub data Gated (negatives statuses : Result (List ℕ)) (snapshot_ts : ℕ) (features : List Row)
      (log : List Write) : Result (Unit {0}) × List Write → Type 0 where
    opened :
        (ns ms : List ℕ)
        → negatives ≡ ok (0 ∷ ns)
        → statuses ≡ ok (0 ∷ ms)
        → Gated negatives statuses snapshot_ts features log
            (main parsers accepts count_of snapshot_ts features log)
    closed :
        (e : Exn)
        → run_ge_validation negatives statuses ≡ raised e
        → Gated negatives statuses snapshot_ts features log (raised e, log)

  rows_written :
      (snapshot_ts : ℕ) (features : List Row) (log log' : List Write)
      → Ran accepts parsers count_of snapshot_ts features log log'
      → any is_rows log' ≡ true
  rows_written snapshot_ts features log log' ran = rw (ran.written) (
      any-append is_rows ran.mid (map batch (batches 1000 ran.stored)) (
        any-batches (batches 1000 ran.stored)
          (λ e. as_many ran.valid ran.stored ran.one_each ran.some_valid (sym ran.in_order ∙ e))))

  -- The check at the end passes after a run of the script that has ended without an exception.
  verified :
      CountsRows count_of
      → (snapshot_ts : ℕ) (features : List Row) (log : List Write)
      → continue
          (main parsers accepts count_of snapshot_ts features log)
          (λ _. verify parsers accepts count_of)
        ≡ main parsers accepts count_of snapshot_ts features log
  unfolding verify_feature_store
  verified counts snapshot_ts features log =
      of_result (main parsers accepts count_of snapshot_ts features log) refl
    where
      of_result :
          (r : Result (Unit {0}) × List Write)
          → main parsers accepts count_of snapshot_ts features log ≡ r
          → continue r (λ _. verify parsers accepts count_of) ≡ r
      of_result (raised e, log') h = refl
      of_result (ok u, log') h =
          let ran = main-Ran accepts parsers count_of snapshot_ts features log log' h in
          let (n, e) = counts log' (rows_written snapshot_ts features log log' ran) in rw e refl

  -- Where a table to which rows have been written has a count above zero, a run of the DAG is the run
  -- of the script if the two queries of the gate count 0, so that the check at the end never fails a
  -- script that ended well, and otherwise it raises before it has written anything.
  pub dag_run-Gated :
      CountsRows count_of
      → (negatives statuses : Result (List ℕ)) (snapshot_ts : ℕ) (features : List Row)
        (log : List Write)
      → Gated negatives statuses snapshot_ts features log
          (dag_run parsers accepts count_of negatives statuses snapshot_ts features log)
  unfolding dag_run run_ge_validation
  dag_run-Gated counts negatives statuses snapshot_ts features log =
      elim (Result-cases (require_zero negatives)) [
        | inr (e, h) ↦ rw h (closed e (rw h refl))
        | inl (u, h) ↦ elim (Result-cases (require_zero statuses)) [
          | inr (e, k) ↦ rw h (rw k (closed e (rw h (rw k refl))))
          | inl (v, k) ↦
              let (ns, h') = require_zero-eq-ok negatives h in
              let (ms, k') = require_zero-eq-ok statuses k in
              rw h (rw k (rw (verified counts snapshot_ts features log) (opened ns ms h' k')))
        ]
      ]
