-- ===== src/Spark/Bounds.antt =====
-- Counts, shorts and rates.
use paystream.Base.{
  ℕ, ◌%◌, ◌≤◌, ◌<◌, ◌≡◌, refl, ap, Bool, true, false, not, List, [], ◌∷◌, length, filter, any, map,
  ltb, ◌==◌, lt→ltb, Bool-cases, inl, inr, arith,
}
use paystream.Base.Int.{pos}
use paystream.Base.Number.{is_negative, exceeds_one}
use paystream.Spark.{to_short, rate}

pub length-filter_mono {ℓ} :
    {A : Type ℓ} (p q : A → Bool) (xs : List A)
    → ((x : A) → p x ≡ true → q x ≡ true)
    → length (filter p xs) ≤ length (filter q xs)
length-filter_mono p q [] h = omega arith
length-filter_mono p q (x ∷ xs) h =
    let ih = length-filter_mono p q xs h in
    elim (Bool-cases (p x)) [
      | inl e ↦ let e' = h x e in ground (arith, ih)
      | inr e ↦ ground (arith, ih)
    ]

pub to_short_small : (n : ℕ) → n < 32768 → to_short (pos n) ≡ pos n
unfolding to_short
to_short_small n h =
    let same : n % 65536 ≡ n = omega arith in
    let fits : ltb (n % 65536) 32768 ≡ true = lt→ltb (n % 65536) 32768 (omega arith) in
    rw fits (ap pos same)

pub rate-IsRate :
    (n d : ℕ) → n ≤ d → (is_negative (rate n d) ≡ false) × (exceeds_one (rate n d) ≡ false)
rate-IsRate n d h = elim (Bool-cases (d == 0)) [
  | inl e ↦ rw e (refl, refl)
  | inr e ↦ rw e (refl, ground arith)
]

any-map_none {ℓ κ} :
    {A : Type ℓ} {B : Type κ} (p : B → Bool) (f : A → B) (xs : List A)
    → ((x : A) → p (f x) ≡ false)
    → any p (map f xs) ≡ false
any-map_none p f [] h = refl
any-map_none p f (x ∷ xs) h = rw (h x) (any-map_none p f xs h)

pub not-any-map {ℓ κ} :
    {A : Type ℓ} {B : Type κ} (p : B → Bool) (f : A → B) (xs : List A)
    → ((x : A) → p (f x) ≡ false)
    → not (any p (map f xs)) ≡ true
not-any-map p f xs h = ap not (any-map_none p f xs h)
