-- ===== src/Dashboards/Again.antt =====
-- A second run of the scripts: what a repair leaves is not repaired again.
use paystream.Base.{
  ℕ, ◌≡◌, refl, List, [], ◌∷◌, Option, none, some, ltb, All, Bool-cases, inl, inr, arith,
}
use paystream.Dashboards.{Panel, Dashboard, each, each_in, fix_file}

module _ {A : Type 0} (f : A → A × ℕ) where
  pub each-count : ((a : A) → (f (f a).0).1 ≡ 0) → (xs : List A) → (each f (each f xs).0).1 ≡ 0
  each-count h [] = refl
  each-count h (x ∷ xs) = omega (arith, h x, each-count h xs)

  pub each_in-count :
      ((a : A) → (f (f a).0).1 ≡ 0) → (xs : Option (List A)) → (each_in f (each_in f xs).0).1 ≡ 0
  each_in-count h none = refl
  each_in-count h (some xs) = each-count h xs

  pub each-again :
      ((a : A) → f (f a).0 ≡ ((f a).0, 0))
      → (xs : List A) → each f (each f xs).0 ≡ ((each f xs).0, 0)
  each-again h [] = refl
  each-again h (x ∷ xs) = rw (h x) (rw (each-again h xs) refl)

  -- Elements that need no repair satisfy what says so.
  pub each-zero :
      (P : A → Type 0)
      → ((a : A) → (f a).1 ≡ 0 → P a)
      → (xs : List A) → (each f xs).1 ≡ 0
      → All P xs
  each-zero P h [] e = tt
  each-zero P h (x ∷ xs) e = (h x (omega arith), each-zero P h xs (omega arith))

  pub each-All : (P : A → Type 0) → ((a : A) → P (f a).0) → (xs : List A) → All P (each f xs).0
  each-All P h [] = tt
  each-All P h (x ∷ xs) = (h x, each-All P h xs)

module _ (on_panel : Panel → Panel × ℕ) where
  pub fix_file-again :
      ((p : Panel) → (on_panel (on_panel p).0).1 ≡ 0)
      → (d : Dashboard) → fix_file on_panel (fix_file on_panel d).0 ≡ ((fix_file on_panel d).0, 0)
  fix_file-again h d = of_panels (d.panels)
    where
      of_panels :
          (panels : Option (List Panel))
          → let d' = record d { panels = panels } in
            fix_file on_panel (fix_file on_panel d').0 ≡ ((fix_file on_panel d').0, 0)
      of_panels none = refl
      of_panels (some ps) = elim (Bool-cases (ltb 0 (each on_panel ps).1)) [
        | inl e ↦ rw e (rw (each-count on_panel h ps) refl)
        | inr e ↦
            let none_fixed : (each on_panel ps).1 ≡ 0 = ground arith in
            rw none_fixed (rw none_fixed refl)
      ]
