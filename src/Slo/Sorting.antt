-- ===== src/Slo/Sorting.antt =====
-- The sorted list: its length, its order, and its elements.
use paystream.Base.{
  ℕ, zero, suc, ◌≤◌, ◌<◌, ◌≡◌, refl, ap, ◌∙◌, List, [], ◌∷◌, length, All, leb, Bool-cases, inl, inr,
  arith,
}
use paystream.Slo.{insert_sorted, sort, item}

length-insert_sorted : (x : ℕ) (ys : List ℕ) → length (insert_sorted x ys) ≡ suc (length ys)
length-insert_sorted x [] = refl
length-insert_sorted x (y ∷ ys) = ground (arith, length-insert_sorted x ys)

pub length-sort : (xs : List ℕ) → length (sort xs) ≡ length xs
length-sort [] = refl
length-sort (x ∷ xs) = length-insert_sorted x (sort xs) ∙ ap suc (length-sort xs)

-- Each element is at most those after it.
abbrev pub Sorted : List ℕ → Type 0
Sorted [] = Unit
Sorted (x ∷ xs) = All (λ y. x ≤ y) xs × Sorted xs

All-insert_sorted :
    (P : ℕ → Type 0) (x : ℕ) (ys : List ℕ) → P x → All P ys → All P (insert_sorted x ys)
All-insert_sorted P x [] h k = (h, tt)
All-insert_sorted P x (y ∷ ys) h (k, ks) =
    let rest = All-insert_sorted P x ys h ks in
    elim (Bool-cases (leb x y)) [ inl e ↦ rw e (h, (k, ks)) | inr e ↦ rw e (k, rest) ]

All-weaken : (x y : ℕ) (zs : List ℕ) → x ≤ y → All (λ z. y ≤ z) zs → All (λ z. x ≤ z) zs
All-weaken x y [] h k = tt
All-weaken x y (z ∷ zs) h (k, ks) = (omega arith, All-weaken x y zs h ks)

insert_sorted-Sorted : (x : ℕ) (ys : List ℕ) → Sorted ys → Sorted (insert_sorted x ys)
insert_sorted-Sorted x [] h = (tt, tt)
insert_sorted-Sorted x (y ∷ ys) (h, hs) =
    let rest = insert_sorted-Sorted x ys hs in
    elim (Bool-cases (leb x y)) [
      | inl e ↦ let le : x ≤ y = ground arith in rw e ((le, All-weaken x y ys le h), (h, hs))
      | inr e ↦
          let ge : y ≤ x = ground arith in rw e (All-insert_sorted (λ z. y ≤ z) x ys ge h, rest)
    ]

pub sort-Sorted : (xs : List ℕ) → Sorted (sort xs)
sort-Sorted [] = tt
sort-Sorted (x ∷ xs) = insert_sorted-Sorted x (sort xs) (sort-Sorted xs)

pub All-item : (P : ℕ → Type 0) (xs : List ℕ) (i : ℕ) → All P xs → i < length xs → P (item xs i)
All-item P [] i h k = absurd (omega arith)
All-item P (x ∷ xs) zero (h, hs) k = h
All-item P (x ∷ xs) (suc i) (h, hs) k = All-item P xs i hs (omega arith)

-- A later place of a sorted list holds no smaller element.
pub item_mono : (xs : List ℕ) (i j : ℕ) → Sorted xs → i ≤ j → j < length xs → item xs i ≤ item xs j
item_mono [] i j s h k = absurd (omega arith)
item_mono (x ∷ xs) zero zero s h k = omega arith
item_mono (x ∷ xs) zero (suc j) (s, ss) h k = All-item (λ y. x ≤ y) xs j s (omega arith)
item_mono (x ∷ xs) (suc i) zero s h k = absurd (omega arith)
item_mono (x ∷ xs) (suc i) (suc j) (s, ss) h k = item_mono xs i j ss (omega arith) (omega arith)

All-insert_sorted_of :
    (P : ℕ → Type 0) (x : ℕ) (ys : List ℕ) → All P (insert_sorted x ys) → P x × All P ys
All-insert_sorted_of P x [] h = h
All-insert_sorted_of P x (y ∷ ys) h = elim (Bool-cases (leb x y)) [
  | inl e ↦ rw e at h
  | inr e ↦
      let split : P y × All P (insert_sorted x ys) = rw e at h in
      let (here, rest) = All-insert_sorted_of P x ys (split.1) in (here, (split.0, rest))
]

-- What holds of the sorted elements holds of the elements.
pub All-sort_of : (P : ℕ → Type 0) (xs : List ℕ) → All P (sort xs) → All P xs
All-sort_of P [] h = tt
All-sort_of P (x ∷ xs) h =
    let (here, rest) = All-insert_sorted_of P x (sort xs) h in (here, All-sort_of P xs rest)

-- The last element of a sorted list is its largest.
pub All-last : (xs : List ℕ) (m : ℕ) → Sorted xs → suc m ≡ length xs → All (λ x. x ≤ item xs m) xs
All-last [] m s h = tt
All-last (x ∷ []) zero s h = (omega arith, tt)
All-last (x ∷ []) (suc m) s h = absurd (omega arith)
All-last (x ∷ y ∷ ys) zero s h = absurd (omega arith)
All-last (x ∷ y ∷ ys) (suc m) ((le, s), ss) h =
    let (here, rest) = All-last (y ∷ ys) m ss (omega arith) in (omega (arith, here), (here, rest))

pub All-sort : (P : ℕ → Type 0) (xs : List ℕ) → All P xs → All P (sort xs)
All-sort P [] h = tt
All-sort P (x ∷ xs) (h, hs) = All-insert_sorted P x (sort xs) h (All-sort P xs hs)
