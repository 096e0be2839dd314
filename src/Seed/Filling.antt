-- ===== src/Seed/Filling.antt =====
-- The loops of scripts/seed_data.py: rows in batches.
use paystream.Base.{
  ℕ, zero, suc, ◌+◌, ◌≤◌, ◌<◌, ◌≡◌, refl, sym, ap, subst, ◌∙◌, Bool, true, List, [], ◌∷◌, ◌++◌,
  some, length, arith, and-intro, le→leb,
}
use paystream.Base.Task.{ok}
use paystream.Base.Action.{Act, pure, continue, ◌>>=◌, Gives, pure-Gives, >>=-Gives, Gives-weaken}
use paystream.Seed.Rows.{repeat}
use paystream.Seed.Tables.{Table, add, serial}
use paystream.Seed.Batching.{Partition, batch_iter_lem}
use paystream.Seed.{load, load_all, load_batches}

-- Rows with their indices.
abbrev pub Rows : {R : Type 0} → (ℕ → R → Type 0) → ℕ → List R → Type 0
Rows P idx [] = Unit
Rows P idx (r ∷ rs) = P idx r × Rows P (suc idx) rs

pub repeat-Gives :
    {R : Type 0} (P : ℕ → R → Type 0) (gen : ℕ → Act ℕ R) (bound : ℕ)
    → ((idx : ℕ) → idx < bound → Gives (P idx) (gen idx))
    → (n idx : ℕ) → idx + n ≤ bound
    → Gives (λ rs. Rows P idx rs × (length rs ≡ n)) (repeat gen idx n)
unfolding repeat
repeat-Gives P gen bound each zero idx h = pure-Gives _ [] (tt, refl)
repeat-Gives P gen bound each (suc n) idx h = >>=-Gives (gen idx) _ (each idx (omega arith)) (λ r p.
    >>=-Gives (repeat gen (suc idx) n) _ (repeat-Gives P gen bound each n (suc idx) (omega arith))
      (λ rs (ps, same). pure-Gives _ (r ∷ rs) ((p, ps), ap suc same)))

module _ {R : Type 0} (takes : Table R → R → Bool) where
  -- An invariant of the table that each row of a kind keeps, where the table takes the row.
  module _ (Inv : ℕ → Table R → Type 0) (Row : ℕ → R → Type 0)
      (step : (idx : ℕ) (r : R) (t : Table R)
        → Inv idx t
        → Row idx r
        → (takes t r ≡ true)
          × Inv
              (suc idx)
              (record { rows = t.rows ++ (t.next_id, r) ∷ []; next_id = suc (t.next_id) })) where
    add_lem :
        (rs : List R) (idx : ℕ) (t : Table R)
        → Inv idx t
        → Rows Row idx rs
        → (t' : Table R) × (add takes rs t ≡ some t') × Inv (idx + length rs) t'
    unfolding add
    add_lem [] idx t i h = (t, refl, subst (λ k. Inv k t) (omega arith) i)
    add_lem (r ∷ rs) idx t i (h, hs) =
        let (taken, i') = step idx r t i h in
        let (t', e, i'') = add_lem rs (suc idx) _ i' hs in
        (t', rw taken e, subst (λ k. Inv k t') (omega arith) i'')

    pub load-values :
        (put : List R → Act (Table R) (Unit {0})) (gen : Act ℕ (List R)) (idx n drawn : ℕ)
        (t : Table R)
        → ((rows : List R) (t t' : Table R) → add takes rows t ≡ some t' → put rows t ≡ (ok tt, t'))
        → Gives (λ rs. Rows Row idx rs × (length rs ≡ n)) gen
        → Inv idx t
        → (drawn' : ℕ) × (t' : Table R) × (load gen put (drawn, t) ≡ (ok tt, (drawn', t')))
          × Inv (idx + n) t'
    load-values put gen idx n drawn t puts g i =
        let (rs, drawn', e, (h, same)) = g.gives drawn in
        let (t', e', i') = add_lem rs idx t i h in
        (drawn', t', rw (e, puts rs t t' e'), subst (λ k. Inv (idx + k) t') same i')

Rows-below :
    {R : Type 0} (Row : ℕ → R → Type 0) (total idx : ℕ) (rs : List R)
    → idx + length rs ≤ total
    → Rows Row idx rs
    → Rows (λ i r. (i < total) × Row i r) idx rs
Rows-below Row total idx [] h k = tt
Rows-below Row total idx (r ∷ rs) h (k, ks) =
    ((omega arith, k), Rows-below Row total (suc idx) rs (omega arith) ks)

-- The invariant of a table and its next key.
abbrev pub Keyed : {R : Type 0} → (ℕ → Table R → Type 0) → ℕ → ℕ → Table R → Type 0
Keyed Inv start idx t = Inv idx t × (t.next_id ≡ start + idx)

-- The same for a table with a serial key, where the keys suffice for `total` rows.
module _ {R : Type 0} (takes : Table R → R → Bool) (Inv : ℕ → Table R → Type 0)
    (Row : ℕ → R → Type 0)
    (step : (idx : ℕ) (r : R) (t : Table R)
      → Inv idx t
      → Row idx r
      → (takes t r ≡ true)
        × Inv
            (suc idx)
            (record { rows = t.rows ++ (t.next_id, r) ∷ []; next_id = suc (t.next_id) }))
    (limit start total : ℕ) (room : start + total ≤ suc limit) where
  serial_step :
      (idx : ℕ) (r : R) (t : Table R)
      → Keyed Inv start idx t
      → (idx < total) × Row idx r
      → (serial limit takes t r ≡ true)
        × Keyed Inv start
            (suc idx)
            (record { rows = t.rows ++ (t.next_id, r) ∷ []; next_id = suc (t.next_id) })
  serial_step idx r t (i, e) (below, k) =
      let (taken, i') = step idx r t i k in
      (and-intro (le→leb (t.next_id) limit (omega arith)) taken, (i', omega arith))

  pub load-serial :
      (put : List R → Act (Table R) (Unit {0})) (gen : Act ℕ (List R)) (idx n drawn : ℕ)
      (t : Table R)
      → ((rows : List R) (t t' : Table R)
          → add (serial limit takes) rows t ≡ some t'
          → put rows t ≡ (ok tt, t'))
      → idx + n ≤ total
      → Gives (λ rs. Rows Row idx rs × (length rs ≡ n)) gen
      → Keyed Inv start idx t
      → (drawn' : ℕ) × (t' : Table R) × (load gen put (drawn, t) ≡ (ok tt, (drawn', t')))
        × Keyed Inv start (idx + n) t'
  load-serial put gen idx n drawn t puts l g i =
      load-values (serial limit takes) (Keyed Inv start) (λ i r. (i < total) × Row i r) serial_step
        put gen idx n drawn t puts
        (Gives-weaken gen g (λ rs (h, same). (Rows-below Row total idx rs (omega arith) h, same))) i

Partition-le : (size total off : ℕ) (bs : List (ℕ × ℕ)) → Partition size total off bs → off ≤ total
Partition-le size total off [] h = omega arith
Partition-le size total off ((o, c) ∷ bs) (e, p, l, h) =
    omega (arith, Partition-le size total (off + c) bs h)

-- The loop over the batches keeps what each batch keeps, and comes to its end.
module _ {T R : Type 0} (gen : ℕ → ℕ → Act ℕ (List R)) (put : List R → Act T (Unit {0}))
    (Inv : ℕ → T → Type 0) (total : ℕ)
    (body : (off cnt drawn : ℕ) (t : T)
      → Inv off t
      → 0 < cnt
      → off + cnt ≤ total
      → (drawn' : ℕ) × (t' : T) × (load (gen off cnt) put (drawn, t) ≡ (ok tt, (drawn', t')))
        × Inv (off + cnt) t') where
  load_all_lem :
      (size off drawn : ℕ) (bs : List (ℕ × ℕ)) (t : T)
      → Partition size total off bs
      → Inv off t
      → (drawn' : ℕ) × (t' : T) × (load_all gen put bs (drawn, t) ≡ (ok tt, (drawn', t')))
        × Inv total t'
  unfolding load_all pure ◌>>=◌
  load_all_lem size off drawn [] t e i = (drawn, t, refl, subst (λ k. Inv k t) e i)
  load_all_lem size off drawn ((o, c) ∷ bs) t (e, p, l, h) i =
      let (d1, t1, e1, i1) =
        body o c drawn t (subst (λ k. Inv k t) (sym e) i) p
          (omega (arith, Partition-le size total (off + c) bs h)) in
      let (d2, t2, e2, i2) =
        load_all_lem size (off + c) d1 bs t1 h (subst (λ k. Inv (k + c) t1) e i1) in
      (d2, t2, ap (λ r. continue r (λ _. load_all gen put bs)) e1 ∙ e2, i2)

  pub load_batches_lem :
      (size drawn : ℕ) (t : T)
      → 0 < size
      → Inv 0 t
      → (drawn' : ℕ) × (t' : T) × (load_batches gen put total size (drawn, t)
          ≡ (ok tt, (drawn', t')))
        × Inv total t'
  unfolding load_batches
  load_batches_lem size drawn t h i =
      let (bs, e, p) = batch_iter_lem total size h in
      let (drawn', t', e', i') = load_all_lem size 0 drawn bs t p i in (drawn', t', rw e e', i')
