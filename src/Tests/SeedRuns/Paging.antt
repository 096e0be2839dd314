-- ===== src/Tests/SeedRuns/Paging.antt =====
-- Drivers that do as documented: `execute_values` sends pages of 100 rows, each in a statement that
-- adds all its rows or raises, and `insert_many` raises on no documents.
use mathlib.Core.List.{flatten}
use paystream.Base.{
  suc, ◌<◌, ◌≡◌, refl, ap, ◌∙◌, Bool, List, [], ◌∷◌, ◌++◌, Option, none, some, length, arith,
  Bool-cases, inl, inr,
}
use paystream.Base.Task.{Result, ok, raised, type_error, external_error}
use paystream.Base.Batches.{batches, batches_lem}
use paystream.Base.Action.{Act, pure, ◌>>=◌, ◌>>◌}
use paystream.Seed.Tables.{Table, add, Drivers, AreDocumented}

module _ {R : Type 0} (takes : Table R → R → Bool) where
  abbrev pub or_refused : Table R → Option (Table R) → Result (Unit {0}) × Table R
  or_refused t none = (raised external_error, t)
  or_refused t (some t') = (ok tt, t')

  unfoldable pub insert_pages : List (List R) → Act (Table R) (Unit {0})
  unfolding add
  insert_pages [] = pure tt
  insert_pages (page ∷ pages) =
      let later = insert_pages pages in (λ t. or_refused t (add takes page t)) >> later

  -- `psycopg2.extras.execute_values`
  unfoldable pub execute_values : List R → Act (Table R) (Unit {0})
  unfolding insert_pages
  execute_values rows = insert_pages (batches 100 rows)

  add-append :
      (xs ys : List R) (t t' : Table R)
      → add takes (xs ++ ys) t ≡ some t'
      → (mid : Table R) × (add takes xs t ≡ some mid) × (add takes ys mid ≡ some t')
  unfolding add
  add-append [] ys t t' h = (t, refl, h)
  add-append (x ∷ xs) ys t t' h = elim (Bool-cases (takes t x)) [
    | inl e ↦
        let rest : add takes (xs ++ ys)
              (record { rows = t.rows ++ (t.next_id, x) ∷ []; next_id = suc (t.next_id) })
            ≡ some t' =
          rw e at h in
        let (mid, p, q) = add-append xs ys _ t' rest in (mid, rw e p, q)
    | inr e ↦ absurd (ground arith)
  ]

  insert_pages_lem :
      (pages : List (List R)) (t t' : Table R)
      → add takes (flatten pages) t ≡ some t'
      → insert_pages pages t ≡ (ok tt, t')
  unfolding insert_pages flatten add pure ◌>>=◌
  insert_pages_lem [] t t' h = cc
  insert_pages_lem (page ∷ pages) t t' h =
      let (mid, p, q) = add-append page (flatten pages) t t' h in
      rw p (insert_pages_lem pages mid t' q)

  execute_values_lem :
      (rows : List R) (t t' : Table R)
      → add takes rows t ≡ some t'
      → execute_values rows t ≡ (ok tt, t')
  unfolding execute_values
  execute_values_lem rows t t' h =
      let same : flatten (batches 100 rows) ≡ rows = (batches_lem 100 rows (omega arith)).0 in
      insert_pages_lem (batches 100 rows) t t' (ap (λ rs. add takes rs t) same ∙ h)

-- `insert_many` raises on no documents.
unfoldable pub insert_many : {D : Type 0} → List D → Act (List D) (Unit {0})
insert_many [] c = (raised type_error, c)
insert_many (d ∷ ds) c = (ok tt, c ++ (d ∷ ds))

insert_many_lem : {D : Type 0} (ds c : List D) → 0 < length ds → insert_many ds c ≡ (ok tt, c ++ ds)
unfolding insert_many
insert_many_lem [] c h = absurd (omega arith)
insert_many_lem (d ∷ ds) c h = refl

abbrev pub drivers : Drivers
drivers = record {
  execute_values = λ R takes rows. execute_values takes rows;
  insert_many = λ D ds. insert_many ds;
}

pub drivers-AreDocumented : AreDocumented drivers
drivers-AreDocumented = record {
  executes = λ R takes rows t t' h. execute_values_lem takes rows t t' h;
  inserts = λ D ds c h. insert_many_lem ds c h;
}
