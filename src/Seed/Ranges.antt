-- ===== src/Seed/Ranges.antt =====
-- What the random helpers return.
use native.Mathlib.Nat.{mod-lt, mod-add-div'}
use paystream.Base.{
  ℕ, zero, suc, ◌+◌, ◌-◌, ◌*◌, ◌/◌, ◌%◌, ◌^◌, ◌≤◌, ◌<◌, ◌≡◌, refl, List, [], ◌∷◌, ◌++◌, some, All,
  length, get_elem?, ltb, arith, Bool-cases, inl, inr, ap, ◌∙◌, ◌⊎◌, ◌==◌,
}
use paystream.Base.Action.{Gives, pure-Gives, >>=-Gives}
use paystream.Base.Numeral.{codes, str, length-str}
use paystream.Base.Rounding.{round_half_even}
use paystream.Seed.Random.{
  base_date, date_range_days, or_index_error, pick, total, below, randint, choice, random_ts,
  random_dec, wc, random_phone, random_national_id,
}

abbrev pub Within : ℕ → ℕ → ℕ → Type 0
Within lo hi n = (lo ≤ n) × (n ≤ hi)

to_even : (q d : ℕ) → (((q + q % 2) * d ≡ q * d) ⊎ ((q + q % 2) * d ≡ q * d + d))
to_even q d = elim (Bool-cases (q % 2 == 0)) [
  | inl e ↦ inl (ap (λ k. k * d) (ground arith))
  | inr e ↦ let odd : q + q % 2 ≡ q + 1 = ground arith in inr (ap (λ k. k * d) odd ∙ omega arith)
]

-- The rounded quotient is within half a unit of the quotient.
pub round_half_even_near :
    (n d : ℕ)
    → 0 < d
    → (2 * (round_half_even n d * d) ≤ 2 * n + d) × (2 * n ≤ 2 * (round_half_even n d * d) + d)
unfolding round_half_even
round_half_even_near n d h =
    let parts : n % d + n / d * d ≡ n = mod-add-div' n d in
    let small : n % d < d = mod-lt n h in
    elim (Bool-cases (ltb (2 * (n % d)) d)) [
      | inl e ↦ rw e (ground arith)
      | inr e ↦ elim (Bool-cases (ltb d (2 * (n % d)))) [
        | inl e' ↦ rw (e, e') (ground arith)
        | inr e' ↦ rw (e, e') (ground (arith, to_even (n / d) d))
      ]
    ]

scaled_le : (lo m d n : ℕ) → 0 < d → lo * d ≤ n → 2 * n ≤ 2 * (m * d) + d → lo ≤ m
scaled_le lo m d n h l a = grind arith

scaled_ge : (hi m d n : ℕ) → 0 < d → n ≤ hi * d → 2 * (m * d) ≤ 2 * n + d → m ≤ hi
scaled_ge hi m d n h u b = grind arith

-- Rounding keeps whole bounds.
pub round_half_even_Within :
    (lo hi n d : ℕ) → 0 < d → lo * d ≤ n → n ≤ hi * d → Within lo hi (round_half_even n d)
round_half_even_Within lo hi n d h l u =
    let (below_n, above_n) = round_half_even_near n d h in
    let m = round_half_even n d in (scaled_le lo m d n h l above_n, scaled_ge hi m d n h u below_n)

ten_pos : (k : ℕ) → 0 < 10 ^ k
ten_pos zero = omega arith
ten_pos (suc k) = omega (arith, ten_pos k)

get_elem?-All :
    {A : Type 0} (P : A → Type 0) (xs : List A) (i : ℕ)
    → All P xs
    → i < length xs
    → (a : A) × (get_elem? xs i ≡ some a) × P a
get_elem?-All P [] i h l = absurd (omega arith)
get_elem?-All P (x ∷ xs) zero (h, hs) l = (x, refl, h)
get_elem?-All P (x ∷ xs) (suc i) (h, hs) l = get_elem?-All P xs i hs (omega arith)

pick_All :
    {A : Type 0} (P : A → Type 0) (x bound : ℕ) (a : A) (options : List (A × ℕ))
    → P a
    → All (λ o. P (o.0)) options
    → P (pick x bound a options)
pick_All P x bound a [] h hs = h
pick_All P x bound a ((b, w) ∷ rest) h (k, hs) = elim (Bool-cases (ltb x (bound * 2 ^ 53))) [
  | inl e ↦ rw e h
  | inr e ↦ rw e (pick_All P x (bound + w) b rest k hs)
]

module _ (draws : ℕ → ℕ) where
  pub below-Gives : (n : ℕ) → 0 < n → Gives (λ i. i < n) (below draws n)
  unfolding below
  below-Gives n h = record {
    gives = λ taken. (draws taken % n, suc taken, refl, mod-lt (draws taken) h);
  }

  pub randint-Gives : (lo hi : ℕ) → lo ≤ hi → Gives (Within lo hi) (randint draws lo hi)
  unfolding randint
  randint-Gives lo hi h =
      >>=-Gives (below draws (hi - lo + 1)) _ (below-Gives (hi - lo + 1) (omega arith))
        (λ i l. pure-Gives (Within lo hi) (lo + i) (omega arith))

  pub choice-Gives :
      {A : Type 0} (P : A → Type 0) (xs : List A)
      → 0 < length xs
      → All P xs
      → Gives P (choice draws xs)
  unfolding choice
  choice-Gives P xs h hs =
      >>=-Gives (below draws (length xs)) (λ i. or_index_error (get_elem? xs i))
        (below-Gives (length xs) h)
        (λ i l. let (a, e, p) = get_elem?-All P xs i hs l in rw e (pure-Gives P a p))

  pub random_ts-Gives :
      Gives (Within base_date (base_date + date_range_days * 86400)) (random_ts draws)
  unfolding random_ts
  random_ts-Gives =
      >>=-Gives (randint draws 0 (date_range_days * 86400)) _
        (randint-Gives 0 (date_range_days * 86400) (omega arith))
        (λ i l. pure-Gives _ (base_date + i) (omega arith))

  pub random_dec-Gives : (lo hi : ℕ) → lo ≤ hi → Gives (Within lo hi) (random_dec draws lo hi)
  unfolding random_dec
  random_dec-Gives lo hi h = >>=-Gives (below draws 17) _ (below-Gives 17 (omega arith)) (λ extra _.
      >>=-Gives (below draws ((hi - lo) * 10 ^ extra + 1)) _ (below-Gives _ (omega arith)) (λ i l.
        pure-Gives (Within lo hi) _ (
          round_half_even_Within lo hi (lo * 10 ^ extra + i) (10 ^ extra) (ten_pos extra)
            (omega arith) (grind arith))))

  pub wc-Gives :
      {A : Type 0} (P : A → Type 0) (options : List (A × ℕ))
      → 0 < length options
      → All (λ o. P (o.0)) options
      → Gives P (wc draws options)
  unfolding wc
  wc-Gives P [] h hs = absurd (omega arith)
  wc-Gives P ((a, w) ∷ options) h (k, ks) =
      >>=-Gives (below draws (2 ^ 53)) _ (below-Gives (2 ^ 53) (omega arith))
        (λ r _. pure-Gives P _ (pick_All P (r * (w + total options)) w a options k ks))

  pub random_phone-Gives : Gives (λ t. length t ≤ 13) (random_phone draws)
  unfolding random_phone
  random_phone-Gives =
      >>=-Gives (randint draws 10000000 99999999) _ (randint-Gives 10000000 99999999 (omega arith))
        (λ n h.
          pure-Gives (λ t. length t ≤ 13) (codes "+9665" ++ str n)
            (omega (arith, length-str 7 n (omega arith))))

  pub random_national_id-Gives : Gives (λ t. length t ≤ 10) (random_national_id draws)
  unfolding random_national_id
  random_national_id-Gives =
      >>=-Gives (randint draws 1000000000 9999999999) _
        (randint-Gives 1000000000 9999999999 (omega arith))
        (λ n h. pure-Gives (λ t. length t ≤ 10) _ (length-str 9 n (omega arith)))
