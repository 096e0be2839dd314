-- ===== src/Slo/Percentiles.antt =====
-- The percentiles of a wave of queries.
use paystream.Base.{ℕ, ◌+◌, ◌-◌, ◌≤◌, ◌<◌, ◌≡◌, refl, List, [], ◌∷◌, length, All, arith}
use paystream.Base.Task.{Result, ok, raised}
use paystream.Slo.{sort, item, rank, Stats, collect, at, stats_of, run_wave}
use paystream.Slo.Sorting.{length-sort, sort-Sorted, item_mono, All-sort_of, All-last}

-- Every future is counted once.
collect_lem : (fs : List (Result ℕ)) → length ((collect fs).0) + (collect fs).1 ≡ length fs
collect_lem [] = refl
collect_lem (ok l ∷ fs) = omega (arith, collect_lem fs)
collect_lem (raised e ∷ fs) = omega (arith, collect_lem fs)

at_le :
    (xs : List ℕ) (p q : ℕ)
    → rank (length xs) p ≤ rank (length xs) q
    → rank (length xs) q < length xs
    → at xs p ≤ at xs q
at_le xs p q le small =
    item_mono (sort xs) (rank (length xs) p) (rank (length xs) q) (sort-Sorted xs) le
      (omega (arith, length-sort xs))

-- What the statistics of a wave say of its queries.
pub record IsSummary (fs : List (Result ℕ)) (s : Stats) : Type 0 where
  pub counted : s.total_queries + s.errors ≡ length fs
  pub median : s.p50 ≤ s.p95
  pub tail : s.p95 ≤ s.p99
  pub top : s.p99 ≤ s.max_ms
  pub largest : All (λ l. l ≤ s.max_ms) ((collect fs).0)

-- Where a query of a wave returns, the statistics count each query once, their percentiles are in order,
-- and no latency is above the maximum.
pub run_wave-IsSummary :
    (fs : List (Result ℕ)) → 1 ≤ length ((collect fs).0) → IsSummary fs (run_wave fs)
unfolding run_wave stats_of
run_wave-IsSummary fs h =
    let xs = (collect fs).0 in
    let n = length xs in
    let same : length (sort xs) ≡ n = length-sort xs in
    record {
      counted = collect_lem fs;
      median = at_le xs 50 95 (omega arith) (omega arith);
      tail = at_le xs 95 99 (omega arith) (omega arith);
      top = item_mono (sort xs) (rank n 99) (n - 1) (sort-Sorted xs) (omega arith) (omega arith);
      largest =
          All-sort_of (λ l. l ≤ item (sort xs) (n - 1)) xs
            (All-last (sort xs) (n - 1) (sort-Sorted xs) (omega arith));
    }
