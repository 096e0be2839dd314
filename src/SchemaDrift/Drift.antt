-- ===== src/SchemaDrift/Drift.antt =====
-- What the status of a compared table says of its columns.
use paystream.Base.{
  ◌≡◌, ◌↔◌, refl, ap, sym, subst, ◌∙◌, Bool, true, false, not, ◌||◌, String, List, [], ◌∷◌, All,
  any, filter, str_eq, eq_iff, Bool-cases, inl, inr, arith,
}
use paystream.SchemaDrift.{
  Subject, ignored_avro_fields, elem, to_set, minus, is_empty, avro_fields, missing, pass_or_warn,
  compared_row,
}

-- The field is ignored or a column.
abbrev pub covered : List String → String → Bool
covered columns name = elem name ignored_avro_fields || elem name columns

any-filter {ℓ} :
    {A : Type ℓ} (p q : A → Bool) (xs : List A)
    → ((x : A) → p x ≡ true → q x ≡ true)
    → any p (filter q xs) ≡ any p xs
any-filter p q [] h = refl
any-filter p q (x ∷ xs) h =
    let ih = any-filter p q xs h in
    elim (Bool-cases (p x)) [
      | inl e ↦ let e' = h x e in rw e' (rw e refl)
      | inr e ↦ elim (Bool-cases (q x)) [
        | inl e' ↦ rw e' (ap (λ b. p x || b) ih)
        | inr e' ↦ rw e' (rw e ih)
      ]
    ]

All-filter_of {ℓ κ} :
    {A : Type ℓ} (P : A → Type κ) (q : A → Bool) (xs : List A) → All P xs → All P (filter q xs)
All-filter_of P q [] h = tt
All-filter_of P q (x ∷ xs) (h, hs) =
    let rest = All-filter_of P q xs hs in
    elim (Bool-cases (q x)) [ inl e ↦ rw e (h, rest) | inr e ↦ rw e rest ]

All-of_filter {ℓ κ} :
    {A : Type ℓ} (P : A → Type κ) (q : A → Bool) (xs : List A)
    → ((x : A) → q x ≡ false → P x)
    → All P (filter q xs)
    → All P xs
All-of_filter P q [] h k = tt
All-of_filter P q (x ∷ xs) h k = elim (Bool-cases (q x)) [
  | inl e ↦
      let kept : P x × All P (filter q xs) = rw e at k in (kept.0, All-of_filter P q xs h kept.1)
  | inr e ↦ (h x e, All-of_filter P q xs h (rw e at k))
]

other : (x y t : String) → str_eq x y ≡ false → str_eq x t ≡ true → not (str_eq y t) ≡ true
other x y t h k = elim (Bool-cases (str_eq y t)) [
  | inr e ↦ rw e refl
  | inl e ↦
      let same : str_eq x y ≡ true = (eq_iff x y).1 ((eq_iff x t).0 k ∙ sym ((eq_iff y t).0 e)) in
      cc
]

-- Removing repeats does not change what is in the list.
elem-to_set : (x : String) (ys : List String) → elem x (to_set ys) ≡ elem x ys
unfolding to_set
elem-to_set x [] = refl
elem-to_set x (y ∷ ys) = elim (Bool-cases (str_eq x y)) [
  | inl e ↦ rw e refl
  | inr e ↦ rw e (
      any-filter (str_eq x) (λ t. not (str_eq y t)) (to_set ys) (λ t k. other x y t e k)
      ∙ elem-to_set x ys)
]

All-to_set : (P : String → Type 0) (ss : List String) → All P (to_set ss) ↔ All P ss
unfolding to_set
All-to_set P [] = (λ h. h, λ h. h)
All-to_set P (s ∷ ss) =
    let (to, from) = All-to_set P ss in
    let q = λ (t : String). not (str_eq s t) in
    let same : P s → (t : String) → q t ≡ false → P t =
      λ h t e. let e' : str_eq s t ≡ true = ground arith in subst P ((eq_iff s t).0 e') h in
    (
      λ (h, hs). (h, to (All-of_filter P q (to_set ss) (same h) hs)),
      λ (h, hs). (h, All-filter_of P q (to_set ss) (from hs)),
    )

-- No field is missing exactly if each is ignored or a column.
missing_iff :
    (columns xs : List String)
    → (is_empty (minus (minus xs ignored_avro_fields) (to_set columns)) ≡ true)
      ↔ All (λ name. covered columns name ≡ true) xs
missing_iff columns [] = (λ h. tt, λ h. refl)
missing_iff columns (x ∷ xs) =
    let ih = missing_iff columns xs in
    elim (Bool-cases (elem x ignored_avro_fields)) [
      | inl e ↦ rw e (λ h. (refl, ih.0 h), λ (h, hs). ih.1 hs)
      | inr e ↦ elim (Bool-cases (elem x columns)) [
        | inl e' ↦
            rw e (rw (elem-to_set x columns) (rw e' (λ h. (refl, ih.0 h), λ (h, hs). ih.1 hs)))
        | inr e' ↦ rw e (rw (elem-to_set x columns) (rw e' (ground arith)))
      ]
    ]

pass_iff : (b : Bool) → (pass_or_warn b ≡ "pass") ↔ (b ≡ true)
pass_iff true = (λ h. refl, λ h. refl)
pass_iff false = (λ h. (eq_iff "warn" "pass").1 h, λ h. cc)

-- A compared table passes exactly if each field of its schema is one of the ignored fields or a column.
pub compared_row_iff :
    (s : Subject) (names columns : List String)
    → ((compared_row s (avro_fields names) columns).status ≡ "pass")
      ↔ All (λ name. covered columns name ≡ true) names
unfolding compared_row
compared_row_iff s names columns =
    let none_missing = is_empty (missing (avro_fields names) columns) in
    let p = pass_iff none_missing in
    let q = missing_iff columns (to_set names) in
    let r = All-to_set (λ name. covered columns name ≡ true) names in
    (λ h. r.0 (q.0 (p.0 h)), λ h. p.1 (q.1 (r.1 h)))
