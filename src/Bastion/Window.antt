-- ===== src/Bastion/Window.antt =====
-- The days whose repayments count, in the query of scripts/compute_features.py and in
-- spark/jobs/credit_feature_engineer.py.
use paystream.Base.{ℕ, ◌+◌, ◌-◌, ◌*◌, ◌/◌, ◌≤◌, ◌≡◌, ◌↔◌, ◌⊎◌, Bool, true, ◌&&◌, leb, arith}
use paystream.Spark.{Repayment, is_due}
use paystream.Bastion.{Cutoffs, cutoffs_of, date_cap}

-- `due_date >= toDate(cutoff_90d_date) AND due_date <= toDate(snap_date)`
unfoldable pub due_in_query : Cutoffs → Repayment → Bool
due_in_query c r = leb c.cutoff_90d_date r.due_date && leb r.due_date c.snap_date

-- The query counts the days that the Spark job counts, up to the cap; from 90 days after the cap on it
-- counts the day of the cap alone.
pub due_in_query_iff :
    (snapshot_ts : ℕ) (r : Repayment)
    → 90 * 86400 ≤ snapshot_ts
    → (due_in_query (cutoffs_of snapshot_ts) r ≡ true) ↔ (
        ((is_due snapshot_ts r ≡ true) × (r.due_date ≤ date_cap))
        ⊎ ((date_cap + 90 ≤ snapshot_ts / 86400) × (r.due_date ≡ date_cap)))
unfolding due_in_query cutoffs_of
due_in_query_iff snapshot_ts r h =
    let back : (snapshot_ts - 7776000) / 86400 + 90 ≡ snapshot_ts / 86400 = omega arith in
    ground (arith, back)
