-- ===== src/Base/Batches.antt =====
-- `for i in range(0, len(xs), step): ... xs[i:i + step]`, the loop that writes rows in batches in
-- dags/utils/compute_features.py and scripts/compute_features.py.
use Prim.Native.Nat.{ℕ, zero, suc, ◌+◌, ◌-◌, ◌*◌, ◌/◌, ◌≤◌, ◌<◌}
use mathlib.Core.Path.{◌≡◌, refl, sym, ap, ◌∙◌}
use mathlib.Core.List.{List, [], ◌∷◌, ◌++◌, flatten}
use native.Mathlib.Nat.{mod-add-div', mod-lt}
use native.Mathlib.Omega.{arith}
use paystream.Base.Lists.{All, length, take, drop, length-take, take-append-drop}

-- The offsets `i, i + step, ...`, `n` of them.
abbrev pub offsets : ℕ → ℕ → ℕ → List ℕ
offsets zero i step = []
offsets (suc n) i step = i ∷ offsets n (i + step) step

-- `range(0, stop, step)` for a positive step, by Python's formula for its length.
abbrev pub range : ℕ → ℕ → List ℕ
range stop step = offsets ((stop + (step - 1)) / step) 0 step

rounds_enough : (len step : ℕ) → 0 < step → len ≤ 0 + (len + (step - 1)) / step * step
rounds_enough len step h =
    omega (arith, mod-add-div' (len + (step - 1)) step, mod-lt (len + (step - 1)) h)

module _ {ℓ} {A : Type ℓ} where
  abbrev pub slices : ℕ → List ℕ → List A → List (List A)
  slices step [] xs = []
  slices step (i ∷ is) xs = take step (drop i xs) ∷ slices step is xs

  unfoldable pub batches : ℕ → List A → List (List A)
  batches step xs = slices step (range (length xs) step) xs

  drop-nil : (n : ℕ) → drop {A = A} n [] ≡ []
  drop-nil zero = refl
  drop-nil (suc n) = refl

  drop-drop : (i j : ℕ) (xs : List A) → drop j (drop i xs) ≡ drop (i + j) xs
  drop-drop zero j xs = ap (λ k. drop k xs) (omega arith)
  drop-drop (suc i) j [] = drop-nil j ∙ sym (drop-nil (suc i + j))
  drop-drop (suc i) j (x ∷ xs) =
      let deeper : suc (i + j) ≡ suc i + j = omega arith in
      drop-drop i j xs ∙ ap (λ k. drop k (x ∷ xs)) deeper

  drop_all : (i : ℕ) (xs : List A) → length xs ≤ i → drop i xs ≡ []
  drop_all zero [] h = refl
  drop_all zero (x ∷ xs) h = absurd (omega arith)
  drop_all (suc i) [] h = refl
  drop_all (suc i) (x ∷ xs) h = drop_all i xs (omega arith)

  flatten-slices :
      (n i step : ℕ) (xs : List A)
      → length xs ≤ i + n * step
      → flatten (slices step (offsets n i step) xs) ≡ drop i xs
  unfolding flatten
  flatten-slices zero i step xs h = sym (drop_all i xs (omega arith))
  flatten-slices (suc n) i step xs h =
      ap (λ r. take step (drop i xs) ++ r)
        (flatten-slices n (i + step) step xs (grind arith) ∙ sym (drop-drop i step xs))
      ∙ take-append-drop step (drop i xs)

  slices-All :
      (is : List ℕ) (step : ℕ) (xs : List A) → All (λ b. length b ≤ step) (slices step is xs)
  slices-All [] step xs = tt
  slices-All (i ∷ is) step xs = (omega (arith, length-take step (drop i xs)), slices-All is step xs)

  -- The batches are the rows, in their order, and none is larger than the step.
  pub batches_lem :
      (step : ℕ) (xs : List A)
      → 0 < step
      → (flatten (batches step xs) ≡ xs) × All (λ b. length b ≤ step) (batches step xs)
  unfolding batches
  batches_lem step xs h = (
    flatten-slices _ 0 step xs (rounds_enough (length xs) step h),
    slices-All (range (length xs) step) step xs,
  )
