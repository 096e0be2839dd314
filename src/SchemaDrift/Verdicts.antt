-- ===== src/SchemaDrift/Verdicts.antt =====
-- The row that each table gets.
use paystream.Base.{
  ℕ, ◌+◌, ◌≡◌, ap, Bool, true, false, String, List, [], ◌∷◌, ◌++◌, map, Option, none, some, ◌==◌,
  if◌then◌else◌, append-nil, subst,
}
use paystream.Base.Task.{Result, ok, raised, pure, ◌>>=◌, insert, lift}
use paystream.Base.Trace.{Does, pure-Does, >>=-Does, insert-Does, catch-Does}
use paystream.Debezium.{or_empty, require_all}
use paystream.SchemaDrift.{
  Subject, subjects, DriftDetails, sr_returned, sr_unreachable, DriftRow, SrResponse, Sources,
  skip_row, is_empty, avro_fields, missing, compared_row, skip, keep_names, keep_fields, try_fetch,
  read_response, fetch_fields, compare_columns, check_subjects, check_schema_drift,
}

-- What the registry has on a subject: its field names, or why the table is skipped.
pub data Lookup : Type 0 where
  skipped : DriftDetails → Lookup
  found : List String → Lookup

abbrev pub lookup_names : Subject → Result (List String) → Lookup
lookup_names s (raised e) = skipped (sr_unreachable e (s.subject))
lookup_names s (ok names) = found names

abbrev pub lookup_fields : Subject → Result (Option (List (Option String))) → Lookup
lookup_fields s (raised e) = skipped (sr_unreachable e (s.subject))
lookup_fields s (ok fields) = lookup_names s (require_all (or_empty fields))

abbrev pub look_up : Subject → Result SrResponse → Lookup
look_up s (raised e) = skipped (sr_unreachable e (s.subject))
look_up s (ok response) =
    if response.status_code == 200
    then lookup_fields s (response.fields)
    else skipped (sr_returned (response.status_code) (s.subject))

abbrev pub sum : List ℕ → ℕ
sum [] = 0
sum (n ∷ ns) = n + sum ns

abbrev pub row_of : Subject → Lookup → List String → DriftRow
row_of s (skipped details) columns = skip_row s details
row_of s (found names) columns = compared_row s (avro_fields names) columns

abbrev pub drifts : Lookup → List String → ℕ
drifts (skipped details) columns = 0
drifts (found names) columns = if is_empty (missing (avro_fields names) columns) then 0 else 1

module _ (latest : String → Result SrResponse) (columns : String → List String) where
  abbrev pub sources : Sources
  sources = record { latest = latest; columns = λ table. ok (columns table) }

  abbrev pub verdict : Subject → DriftRow
  verdict s = row_of s (look_up s (latest (s.subject))) (columns (s.ch_table))

  abbrev pub drift_of : Subject → ℕ
  drift_of s = drifts (look_up s (latest (s.subject))) (columns (s.ch_table))

module _ (accepts : List DriftRow → DriftRow → Bool)
    (taken : (log : List DriftRow) (w : DriftRow) → accepts log w ≡ true)
    (latest : String → Result SrResponse) (columns : String → List String) where
  abbrev here : Sources
  here = sources latest columns

  names_of : Lookup → Option (List String)
  names_of (skipped details) = none
  names_of (found names) = some (avro_fields names)

  skips : Subject → Lookup → List DriftRow
  skips s (skipped details) = skip_row s details ∷ []
  skips s (found names) = []

  skip-Does :
      (s : Subject) (details : DriftDetails)
      → Does (skip accepts here s details) none (skip_row s details ∷ [])
  skip-Does s details =
      >>=-Does (insert accepts (skip_row s details)) (λ u. pure none)
        (insert-Does accepts _ (λ log. taken log _)) (pure-Does none)

  names-Does :
      (s : Subject) (names : Result (List String))
      → Does
          (try_fetch accepts here s (keep_names accepts here names))
          (names_of (lookup_names s names))
          (skips s (lookup_names s names))
  unfolding names_of skips
  names-Does s (raised e) = record { does = (skip-Does s (sr_unreachable e (s.subject))).does }
  names-Does s (ok ns) = record { does = (pure-Does (some (avro_fields ns))).does }

  fields-Does :
      (s : Subject) (fields : Result (Option (List (Option String))))
      → Does
          (try_fetch accepts here s (keep_fields accepts here fields))
          (names_of (lookup_fields s fields))
          (skips s (lookup_fields s fields))
  unfolding names_of skips
  fields-Does s (raised e) = record { does = (skip-Does s (sr_unreachable e (s.subject))).does }
  fields-Does s (ok fs) = record { does = (names-Does s (require_all (or_empty fs))).does }

  response-Does :
      (s : Subject) (b : Bool) (code : ℕ) (fields : Result (Option (List (Option String))))
      → Does
          (try_fetch accepts here s (
            if b
            then keep_fields accepts here fields
            else skip accepts here s (sr_returned code (s.subject))))
          (names_of (if b then lookup_fields s fields else skipped (sr_returned code (s.subject))))
          (skips s (if b then lookup_fields s fields else skipped (sr_returned code (s.subject))))
  unfolding names_of skips
  response-Does s true code fields = fields-Does s fields
  response-Does s false code fields = catch-Does _ _ (skip-Does s (sr_returned code (s.subject)))

  answer-Does :
      (s : Subject) (answer : Result SrResponse)
      → Does
          (try_fetch accepts here s (lift answer >>= λ r. read_response accepts here s r))
          (names_of (look_up s answer))
          (skips s (look_up s answer))
  unfolding names_of skips
  answer-Does s (raised e) = record { does = (skip-Does s (sr_unreachable e (s.subject))).does }
  answer-Does s (ok response) = record {
    does =
        (response-Does s (response.status_code == 200) (response.status_code)
          (response.fields)).does;
  }

  compares : Subject → Lookup → List DriftRow
  compares s (skipped details) = []
  compares s (found names) = compared_row s (avro_fields names) (columns (s.ch_table)) ∷ []

  compare-Does :
      (s : Subject) (l : Lookup)
      → Does
          (compare_columns accepts here s (names_of l))
          (drifts l (columns (s.ch_table)))
          (compares s l)
  unfolding names_of compares compare_columns
  compare-Does s (skipped details) = pure-Does 0
  compare-Does s (found names) = record {
    does =
        (>>=-Does (insert accepts (compared_row s (avro_fields names) (columns (s.ch_table)))) _
          (insert-Does accepts _ (λ log. taken log _))
          (pure-Does (drifts (found names) (columns (s.ch_table))))).does;
  }

  one_row :
      (s : Subject) (l : Lookup) (rest : List DriftRow)
      → skips s l ++ (compares s l ++ (rest ++ [])) ≡ row_of s l (columns (s.ch_table)) ∷ rest
  unfolding skips compares
  one_row s (skipped details) rest = ap (◌∷◌ (skip_row s details)) (append-nil rest)
  one_row s (found names) rest =
      ap (◌∷◌ (compared_row s (avro_fields names) (columns (s.ch_table)))) (append-nil rest)

  check_subjects-Does :
      (ss : List Subject)
      → Does
          (check_subjects accepts here ss)
          (sum (map (drift_of latest columns) ss))
          (map (verdict latest columns) ss)
  unfolding check_subjects fetch_fields
  check_subjects-Does [] = pure-Does 0
  check_subjects-Does (s ∷ ss) =
      let l = look_up s (latest (s.subject)) in
      let n = drift_of latest columns s in
      let rest = check_subjects accepts here ss in
      subst (Does _ (n + sum (map (drift_of latest columns) ss)))
        (one_row s l (map (verdict latest columns) ss))
        (>>=-Does (fetch_fields accepts here s)
          (λ avro. compare_columns accepts here s avro >>= λ n'. rest >>= λ m. pure (n' + m))
          (answer-Does s (latest (s.subject)))
          (>>=-Does _ (λ n'. rest >>= λ m. pure (n' + m)) (compare-Does s l)
            (>>=-Does rest (λ m. pure (n + m)) (check_subjects-Does ss)
              (pure-Does (n + sum (map (drift_of latest columns) ss))))))

  pub check_schema_drift-Does :
      (log : List DriftRow)
      → check_schema_drift accepts here log ≡ (
        ok (sum (map (drift_of latest columns) subjects)),
        log ++ map (verdict latest columns) subjects,
      )
  unfolding check_schema_drift
  check_schema_drift-Does log = (check_subjects-Does subjects).does log
