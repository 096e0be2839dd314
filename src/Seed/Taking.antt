-- ===== src/Seed/Taking.antt =====
-- Each table takes the rows that are generated for it.
use native.Mathlib.Nat.{ne_of_lt}
use mathlib.Core.List.{append_cancel_left, append_cancel_right}
use paystream.Base.{
  ℕ, suc, ◌+◌, ◌*◌, ◌^◌, ◌≤◌, ◌<◌, ◌≡◌, ◌≢◌, refl, sym, ap, ◌∙◌, true, false, ◌&&◌, List, [], ◌∷◌,
  ◌++◌, All, length, any, ◌==◌, arith, Bool-cases, inl, inr, length-append, le→leb, lt→ltb,
}
use paystream.Base.Trace.{All-append}
use paystream.Base.Action.{Act, Gives, Gives-weaken}
use paystream.Base.Numeral.{Text, codes, str, str_injective, text_eq, text_eq→eq}
use paystream.Seed.Rows.{User, Merchant, Purchase, Payback, Schedule, email_of, repeat}
use paystream.Seed.Kinds.{IsUser, IsMerchant, IsPurchase, IsPayback, IsSchedule, has_pair}
use paystream.Seed.Tables.{
  Table, has, takes_user, takes_merchant, takes_transaction, takes_repayment, takes_schedule,
}
use paystream.Seed.Filling.{Rows, repeat-Gives}

-- `n` rows that satisfy `P`.
abbrev pub Holds : {R : Type 0} → (R → Type 0) → ℕ → Table R → Type 0
Holds P n t = (length (t.rows) ≡ n) × All (λ row. P (row.1)) (t.rows)

module _ {R : Type 0} (P : R → Type 0) where
  pub Holds-appended :
      (n : ℕ) (r : R) (t : Table R)
      → Holds P n t
      → P r
      → Holds P (suc n) (record { rows = t.rows ++ (t.next_id, r) ∷ []; next_id = suc (t.next_id) })
  Holds-appended n r t (same, h) p = (
    length-append (t.rows) ((t.next_id, r) ∷ []) ∙ omega arith,
    All-append (λ row. P (row.1)) (t.rows) ((t.next_id, r) ∷ []) h (p, tt),
  )

  Rows-shift : (i j : ℕ) (rs : List R) → Rows (λ _. P) i rs → Rows (λ _. P) j rs
  Rows-shift i j [] h = tt
  Rows-shift i j (r ∷ rs) (h, hs) = (h, Rows-shift (suc i) (suc j) rs hs)

  -- A generator that does not look at the index.
  pub repeat_same-Gives :
      (gen : Act ℕ R) (n idx : ℕ)
      → Gives P gen
      → Gives (λ rs. Rows (λ _. P) idx rs × (length rs ≡ n)) (repeat (λ _. gen) 0 n)
  repeat_same-Gives gen n idx h =
      Gives-weaken (repeat (λ _. gen) 0 n)
        (repeat-Gives (λ _. P) (λ _. gen) n (λ i _. h) n 0 (omega arith))
        (λ rs (hs, same). (Rows-shift 0 idx rs hs, same))

text_eq-ne : (s t : Text) → s ≢ t → text_eq s t ≡ false
text_eq-ne s t h = elim (Bool-cases (text_eq s t)) [
  | inl e ↦ absurd (h (text_eq→eq s t e))
  | inr e ↦ e
]

email_injective : (i j : ℕ) → email_of i ≡ email_of j → i ≡ j
email_injective i j h = str_injective i j (
    append_cancel_right (str i) (str j) (codes "@paystream.test")
      (append_cancel_left (codes "user") _ _ h))

-- The users up to an index, each with the email of its own index.
abbrev pub Numbered : ℕ → Table User → Type 0
Numbered n t = Holds (λ u. (i : ℕ) × (i < n) × IsUser i u) n t

new_email :
    (n : ℕ) (rows : List (ℕ × User))
    → All (λ row. (i : ℕ) × (i < n) × IsUser i (row.1)) rows
    → any (λ row. text_eq (row.1.email) (email_of n)) rows ≡ false
new_email n [] h = refl
new_email n (row ∷ rows) ((i, lt, u), hs) =
    let other : text_eq (row.1.email) (email_of n) ≡ false =
      text_eq-ne (row.1.email) (email_of n)
        (λ e. absurd (ne_of_lt lt (email_injective i n (sym (u.email) ∙ e)))) in
    rw other (new_email n rows hs)

All-later :
    (n : ℕ) (rows : List (ℕ × User))
    → All (λ row. (i : ℕ) × (i < n) × IsUser i (row.1)) rows
    → All (λ row. (i : ℕ) × (i < suc n) × IsUser i (row.1)) rows
All-later n [] h = tt
All-later n (row ∷ rows) ((i, lt, u), hs) = ((i, omega arith, u), All-later n rows hs)

pub user_step :
    (n : ℕ) (u : User) (t : Table User)
    → Numbered n t
    → IsUser n u
    → (takes_user t u ≡ true)
      × Numbered
          (suc n)
          (record { rows = t.rows ++ (t.next_id, u) ∷ []; next_id = suc (t.next_id) })
unfolding takes_user
user_step n u t (same, h) p =
    let fresh : any (λ row. text_eq (row.1.email) (u.email)) (t.rows) ≡ false =
      ap (λ e. any (λ row. text_eq (row.1.email) e) (t.rows)) (p.email) ∙ new_email n (t.rows) h in
    let limit : u.credit_limit < 10 ^ 12 = omega (arith, p.credit_limit) in
    (
      rw (
        fresh,
        le→leb (length (u.full_name)) 100 (p.full_name),
        le→leb (length (u.email)) 150 (p.email_fits),
        le→leb (length (u.phone)) 20 (p.phone),
        le→leb (length (u.national_id)) 20 (p.national_id),
        lt→ltb (u.credit_limit) (10 ^ 12) limit,
        le→leb (length (u.credit_tier)) 20 (p.credit_tier.1),
        le→leb (length (u.kyc_status)) 20 (p.kyc_status.1),
      ),
      Holds-appended (λ u. (i : ℕ) × (i < suc n) × IsUser i u) n u t (same, All-later n (t.rows) h)
          (n, omega arith, p),
    )

pub merchant_step :
    (n : ℕ) (m : Merchant) (t : Table Merchant)
    → Holds IsMerchant n t
    → IsMerchant m
    → (takes_merchant t m ≡ true)
      × Holds IsMerchant
          (suc n)
          (record { rows = t.rows ++ (t.next_id, m) ∷ []; next_id = suc (t.next_id) })
unfolding takes_merchant
merchant_step n m t h p = (ground arith, Holds-appended IsMerchant n m t h p)

pub transaction_step :
    (users merchants : List ℕ) (n : ℕ) (p : Purchase) (t : Table Purchase)
    → Holds (IsPurchase users merchants) n t
    → IsPurchase users merchants p
    → (takes_transaction users merchants t p ≡ true)
      × Holds
          (IsPurchase users merchants)
          (suc n)
          (record { rows = t.rows ++ (t.next_id, p) ∷ []; next_id = suc (t.next_id) })
unfolding takes_transaction
transaction_step users merchants n p t h k =
    (ground arith, Holds-appended (IsPurchase users merchants) n p t h k)

-- The keys of the pairs.
abbrev pub Keys : List ℕ → List ℕ → ℕ × ℕ → Type 0
Keys transactions users p = (has transactions (p.0) ≡ true) × (has users (p.1) ≡ true)

Keys-has_pair :
    (transactions users : List ℕ) (pairs : List (ℕ × ℕ)) (tx user : ℕ)
    → All (Keys transactions users) pairs
    → has_pair pairs tx user ≡ true
    → Keys transactions users (tx, user)
Keys-has_pair transactions users [] tx user h k = cc
Keys-has_pair transactions users (p ∷ pairs) tx user (h, hs) k =
    elim (Bool-cases ((p.0 == tx) && (p.1 == user))) [
      | inl e ↦
          let same_tx : p.0 ≡ tx = ground arith in
          let same_user : p.1 ≡ user = ground arith in
          (ap (has transactions) (sym same_tx) ∙ h.0, ap (has users) (sym same_user) ∙ h.1)
      | inr e ↦ Keys-has_pair transactions users pairs tx user hs (ground arith)
    ]

module _ (transactions users : List ℕ) (pairs : List (ℕ × ℕ))
    (keys : All (Keys transactions users) pairs) where
  pub repayment_step :
      (n : ℕ) (p : Payback) (t : Table Payback)
      → Holds (IsPayback pairs) n t
      → IsPayback pairs p
      → (takes_repayment transactions users t p ≡ true)
        × Holds
            (IsPayback pairs)
            (suc n)
            (record { rows = t.rows ++ (t.next_id, p) ∷ []; next_id = suc (t.next_id) })
  unfolding takes_repayment
  repayment_step n p t h k =
      let (tx, user) =
        Keys-has_pair transactions users pairs (p.transaction_id) (p.user_id) keys (k.pair) in
      (ground arith, Holds-appended (IsPayback pairs) n p t h k)

  small_amount : (a c t : ℕ) → 4 ≤ c → c ≤ 12 → t ≤ 500000 → 2 * (a * c) ≤ 2 * t + c → a < 10 ^ 12
  small_amount a c t h k l m = grind arith

  pub schedule_step :
      (n : ℕ) (s : Schedule) (t : Table Schedule)
      → Holds (IsSchedule pairs) n t
      → IsSchedule pairs s
      → (takes_schedule transactions users t s ≡ true)
        × Holds
            (IsSchedule pairs)
            (suc n)
            (record { rows = t.rows ++ (t.next_id, s) ∷ []; next_id = suc (t.next_id) })
  unfolding takes_schedule
  schedule_step n s t h k =
      let (tx, user) =
        Keys-has_pair transactions users pairs (s.transaction_id) (s.user_id) keys (k.pair) in
      let small =
        small_amount (s.installment_amount) (s.installment_count) (s.total_amount) (k.count.0)
          (k.count.1) (k.total.1) (k.not_above) in
      (ground arith, Holds-appended (IsSchedule pairs) n s t h k)
