-- ===== src/Retention.antt =====
-- dags/audit_log_compaction.py: the deletion of audit files older than 7 days. The answer of
-- `list_objects_v2`, one page of it, and the time are arguments; `accepts` says whether S3 deletes a key.
use paystream.Base.{
  refl, ℕ, ◌+◌, ◌*◌, ap, subst, false, ◌≡◌, sym, ◌∙◌, Bool, String, List, [], ◌∷◌, ◌++◌, map,
  filter, ltb, append-nil, append_assoc, Bool-cases, inl, inr, if◌then◌else◌,
}
use paystream.Base.Task.{Result, ok, raised, Task, pure, insert, ◌>>◌}

pub record S3Object : Type 0 where
  pub key : String
  pub last_modified : ℕ

-- `LastModified < utcnow() - timedelta(days=7)`, in seconds.
abbrev pub is_old : ℕ → S3Object → Bool
is_old now obj = ltb (obj.last_modified + 604800) now

module _ (accepts : List String → String → Bool) (now : ℕ) where
  -- The loop over `response.get('Contents', [])`; a write is a deleted key.
  unfoldable pub cleanup_old_audit_files : List S3Object → Task String (Unit {0})
  cleanup_old_audit_files [] = pure tt
  cleanup_old_audit_files (obj ∷ objs) =
      let rest = cleanup_old_audit_files objs in
      if is_old now obj then insert accepts (obj.key) >> rest else rest

-- The keys of the files that are older than 7 days, in the order of the listing.
abbrev pub old_keys : ℕ → List S3Object → List String
old_keys now objs =
    map (λ o. o.key) (filter (λ o. ltb (o.last_modified + 7 * 24 * 60 * 60) now) objs)

-- A run that returns has deleted all of these keys, in order. One that raises has deleted those before
-- one of them that S3 refuses at that point.
module _ (accepts : List String → String → Bool) where
  abbrev pub Deleted : List String → List String → Result (Unit {0}) × List String → Type 0
  Deleted keys log (ok u, log') = log' ≡ log ++ keys
  Deleted keys log (raised e, log') =
      (done : List String) × (key : String) × (later : List String) × (keys ≡ done ++ key ∷ later)
      × (accepts (log ++ done) key ≡ false)
      × (log' ≡ log ++ done)

  Deleted-after :
      (key : String) (keys log : List String) (r : Result (Unit {0}) × List String)
      → Deleted keys (log ++ key ∷ []) r
      → Deleted (key ∷ keys) log r
  Deleted-after key keys log (ok u, log') h = h ∙ append_assoc log (key ∷ []) keys
  Deleted-after key keys log (raised e, log') (done, k, later, same, refused, h) = (
    key ∷ done,
    k,
    later,
    ap (λ l. key ∷ l) same,
    subst (λ l. accepts l k ≡ false) (append_assoc log (key ∷ []) done) refused,
    h ∙ append_assoc log (key ∷ []) done,
  )

-- Of the files listed, only those older than 7 days are deleted, in order: all of them where the run
-- returns, and where it raises, those before one that S3 refuses to delete at that point.
pub cleanup_old_audit_files-Deleted :
    (accepts : List String → String → Bool) (now : ℕ) (objs : List S3Object) (log : List String)
    → Deleted accepts (old_keys now objs) log (cleanup_old_audit_files accepts now objs log)
unfolding cleanup_old_audit_files
cleanup_old_audit_files-Deleted accepts now [] log = sym (append-nil log)
cleanup_old_audit_files-Deleted accepts now (obj ∷ objs) log = elim (Bool-cases (is_old now obj)) [
  | inr e ↦ rw e (cleanup_old_audit_files-Deleted accepts now objs log)
  | inl e ↦ elim (Bool-cases (accepts log (obj.key))) [
    | inl e' ↦ rw e (
        rw e' (
          Deleted-after accepts (obj.key) (old_keys now objs) log _
            (cleanup_old_audit_files-Deleted accepts now objs (log ++ obj.key ∷ []))))
    | inr e' ↦
        let none_done = sym (append-nil log) in
        rw e (
          rw e' (
            [],
            obj.key,
            old_keys now objs,
            refl,
            subst (λ l. accepts l (obj.key) ≡ false) none_done e',
            none_done,
          ))
  ]
]
