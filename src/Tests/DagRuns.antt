-- ===== src/Tests/DagRuns.antt =====
-- Runs of the reconciliation of settlements and of the deletion of old audit files.
use paystream.Base.{
  ℕ, ◌≡◌, ◌↔◌, refl, Bool, true, not, String, List, [], ◌∷◌, ◌++◌, All, map, str_eq, ◌==◌,
  if◌then◌else◌,
}
use paystream.Base.Int.{pos}
use paystream.Base.Number.{Number, ratio, infinity}
use paystream.Base.Task.{Result, ok, raised, http_error}
use paystream.Retention.{
  S3Object, old_keys, Deleted, cleanup_old_audit_files, cleanup_old_audit_files-Deleted,
}
use paystream.Settlement.{Settled, settled, variance_pct_of, status_of, settle_day, settle_day_lem}

abbrev objects : List S3Object
objects =
    record { key = "a.csv"; last_modified = 100 }
    ∷ record { key = "b.csv"; last_modified = 900000 }
    ∷ record { key = "c.csv"; last_modified = 200 }
    ∷ []

-- S3 refuses the last key.
abbrev but_c : List String → String → Bool
but_c log key = not (str_eq key "c.csv")

cleanup_run : cleanup_old_audit_files but_c 1000000 objects [] ≡ (raised http_error, "a.csv" ∷ [])
unfolding cleanup_old_audit_files
cleanup_run = refl

cleanup_old_audit_files-Deleted_example :
    Deleted but_c (old_keys 1000000 objects) [] (cleanup_old_audit_files but_c 1000000 objects [])
cleanup_old_audit_files-Deleted_example = cleanup_old_audit_files-Deleted but_c 1000000 objects []

abbrev always : List Settled → Settled → Bool
always log w = true

abbrev amounts : List (ℕ × Number)
amounts = (1, ratio (pos 2500) 0) ∷ (2, infinity) ∷ []

-- A bank that settles 1 % less than expected would be a mismatch, if its amount were read.
short_run : status_of (variance_pct_of (ratio (pos 1) 0) (ratio (pos 100) 0)) ≡ "mismatch"
unfolding variance_pct_of
short_run = refl

-- The amounts of day 4.
abbrev approved_on : ℕ → Result (List (ℕ × Number))
approved_on day = if day == 4 then ok amounts else ok []

settle_day_lem_example :
    (settle_day always approved_on 5 [] ≡ (ok tt, [] ++ map (settled 5) amounts))
    × All (λ row. ((settled 5 row).status ≡ "mismatch") ↔ (row.1 ≡ infinity)) amounts
settle_day_lem_example = settle_day_lem always (λ log w. refl) approved_on 4 amounts [] refl
