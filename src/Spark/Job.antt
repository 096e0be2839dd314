-- ===== src/Spark/Job.antt =====
-- The run of spark/jobs/credit_feature_engineer.py around its features: the snapshot that it derives
-- and its two writes. The answers of Silver, of Delta Lake and of the clock are arguments. An effect
-- is what Delta Lake or ClickHouse is asked to do and does.
use paystream.Base.{
  ℕ, ◌+◌, ◌-◌, ◌*◌, ◌/◌, ◌%◌, ◌≡◌, refl, Bool, true, false, String, List, [], ◌∷◌, ◌++◌, Option,
  none, some, ltb, leb, if◌then◌else◌, Bool-cases, inl, inr,
}
use paystream.Base.Task.{
  Result, ok, raised, value_error, system_exit, http_error, Task, lift, insert, catch, continue,
  ◌>>=◌, ◌>>◌,
}
use paystream.Spark.{Silver, Features, main}

-- `datetime.year`, of a day of the Gregorian calendar from 1970 on.
unfoldable pub year_of : ℕ → ℕ
year_of day =
    let z = day + 719468 in
    let doe = z % 146097 in
    let yoe = (doe - doe / 1460 + doe / 36524 - doe / 146096) / 365 in
    let doy = doe - (365 * yoe + yoe / 4 - yoe / 100) in
    yoe + z / 146097 * 400 + (if leb 306 doy then 1 else 0)

-- `get_snapshot_ts`
unfoldable pub get_snapshot_ts : ℕ → Option ℕ → Result ℕ
unfolding year_of
get_snapshot_ts now none = raised value_error
get_snapshot_ts now (some max_ts) =
    if ltb (year_of (now / 86400) + 1) (year_of (max_ts / 86400)) then ok now else ok max_ts

pub data Effect : Type 0 where
  merged : List Features → Effect
  created : List Features → Effect
  overwritten : List Features → Effect
  appended : List Features → Effect

abbrev pub or_exit : Option (List Features) → Result (List Features)
or_exit none = raised system_exit
or_exit (some features) = ok features

module _ (takes : List Effect → Effect → Bool) (is_delta_table : Result Bool) where
  unfoldable pub write_to_delta : List Features → Task Effect (Unit {0})
  write_to_delta features =
      catch
        (do
          exists ← lift is_delta_table
          if exists then insert takes (merged features) else insert takes (created features))
        (λ e. insert takes (overwritten features))

  unfoldable pub write_to_clickhouse : List Features → Task Effect (Unit {0})
  write_to_clickhouse features = insert takes (appended features)

  -- `main` with `--snapshot-ts auto`.
  unfoldable pub run : ℕ → Option ℕ → ℕ → String → Silver → Task Effect (Unit {0})
  unfolding get_snapshot_ts write_to_delta write_to_clickhouse
  run now max_ts interval_hours feature_version silver = do
    snapshot_ts ← lift (get_snapshot_ts now max_ts)
    features ← lift (or_exit (main snapshot_ts interval_hours feature_version silver))
    write_to_delta features
    write_to_clickhouse features

-- What the writes of a run come to: an independent account of which of them is tried, which is taken
-- and what stays of it.
module _ (takes : List Effect → Effect → Bool) (fs : List Features) where
  -- The first try at Delta Lake fails: the test for a table raises, or Delta Lake refuses the merge
  -- into the table that there is, or the creation of the one that there is not.
  abbrev pub Fails : Result Bool → List Effect → Type 0
  Fails (raised e) log = Unit
  Fails (ok true) log = takes log (merged fs) ≡ false
  Fails (ok false) log = takes log (created fs) ≡ false

  -- What Delta Lake is left with: a merge, a new table, an overwrite after a failure, or nothing.
  pub data Delta (is_delta_table : Result Bool) (log : List Effect) : Option Effect → Type 0 where
    merges :
        is_delta_table ≡ ok true
        → takes log (merged fs) ≡ true
        → Delta is_delta_table log (some (merged fs))
    creates :
        is_delta_table ≡ ok false
        → takes log (created fs) ≡ true
        → Delta is_delta_table log (some (created fs))
    overwrites :
        Fails is_delta_table log
        → takes log (overwritten fs) ≡ true
        → Delta is_delta_table log (some (overwritten fs))
    lost :
        Fails is_delta_table log
        → takes log (overwritten fs) ≡ false
        → Delta is_delta_table log none

  -- What the two writes of a run can come to.
  pub data Written (is_delta_table : Result Bool) (log : List Effect)
      : Result (Unit {0}) × List Effect → Type 0 where
    both :
        (d : Effect)
        → Delta is_delta_table log (some d)
        → takes (log ++ d ∷ []) (appended fs) ≡ true
        → Written is_delta_table log (ok tt, (log ++ d ∷ []) ++ appended fs ∷ [])
    delta_only :
        (d : Effect)
        → Delta is_delta_table log (some d)
        → takes (log ++ d ∷ []) (appended fs) ≡ false
        → Written is_delta_table log (raised http_error, log ++ d ∷ [])
    neither : Delta is_delta_table log none → Written is_delta_table log (raised http_error, log)

  -- The result of a write that has left this.
  abbrev after : List Effect → Option Effect → Result (Unit {0}) × List Effect
  after log none = (raised http_error, log)
  after log (some d) = (ok tt, log ++ d ∷ [])

  -- The attempt that falls back to the overwrite.
  abbrev Falls : Result Bool → List Effect → Type 0
  Falls is_delta_table log =
      (o : Option Effect) × (write_to_delta takes is_delta_table fs log ≡ after log o)
      × Delta is_delta_table log o

  write_to_delta-Delta :
      (is_delta_table : Result Bool) (log : List Effect) → Falls is_delta_table log
  unfolding write_to_delta
  write_to_delta-Delta (raised e) log = elim (Bool-cases (takes log (overwritten fs))) [
    | inl o ↦ (some (overwritten fs), rw o refl, overwrites tt o)
    | inr o ↦ (none, rw o refl, lost tt o)
  ]
  write_to_delta-Delta (ok true) log = elim (Bool-cases (takes log (merged fs))) [
    | inl m ↦ (some (merged fs), rw m refl, merges refl m)
    | inr m ↦ elim (Bool-cases (takes log (overwritten fs))) [
      | inl o ↦ (some (overwritten fs), rw m (rw o refl), overwrites m o)
      | inr o ↦ (none, rw m (rw o refl), lost m o)
    ]
  ]
  write_to_delta-Delta (ok false) log = elim (Bool-cases (takes log (created fs))) [
    | inl m ↦ (some (created fs), rw m refl, creates refl m)
    | inr m ↦ elim (Bool-cases (takes log (overwritten fs))) [
      | inl o ↦ (some (overwritten fs), rw m (rw o refl), overwrites m o)
      | inr o ↦ (none, rw m (rw o refl), lost m o)
    ]
  ]

  writes-Written :
      (is_delta_table : Result Bool) (log : List Effect)
      → Written is_delta_table log (
          (write_to_delta takes is_delta_table fs >> write_to_clickhouse takes is_delta_table fs)
            log)
  unfolding write_to_clickhouse
  writes-Written is_delta_table log =
      let (o, e, d) = write_to_delta-Delta is_delta_table log in rw e (later o d)
    where
      later :
          (o : Option Effect)
          → Delta is_delta_table log o
          → Written is_delta_table log
              (continue (after log o) (λ u. write_to_clickhouse takes is_delta_table fs))
      later none d = neither d
      later (some x) d = elim (Bool-cases (takes (log ++ x ∷ []) (appended fs))) [
        | inl a ↦ rw a (both x d a)
        | inr a ↦ rw a (delta_only x d a)
      ]

  -- A run that gets a snapshot, and features that pass the gate, writes them to Delta Lake first: it
  -- merges them into the table that there is, or creates the one that there is not, and where that
  -- fails, or the test for a table raises, it overwrites the table. Where the overwrite is refused too,
  -- it raises and nothing is written. Then it writes them once to ClickHouse, and raises where that is
  -- refused, with the write to Delta Lake done.
  pub run-Written :
      (is_delta_table : Result Bool) (now : ℕ) (max_ts : Option ℕ) (interval_hours : ℕ)
      (feature_version : String) (silver : Silver) (snapshot_ts : ℕ) (log : List Effect)
      → get_snapshot_ts now max_ts ≡ ok snapshot_ts
      → main snapshot_ts interval_hours feature_version silver ≡ some fs
      → Written is_delta_table log
          (run takes is_delta_table now max_ts interval_hours feature_version silver log)
  unfolding run
  run-Written is_delta_table now max_ts interval_hours feature_version silver snapshot_ts log es
        ef =
      rw (es, ef) (writes-Written is_delta_table log)
