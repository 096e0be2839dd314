-- ===== src/Base/Numeral.antt =====
-- Texts as the lists of their codes, and the decimal numeral of a number in an f-string.
use Prim.Native.Char.{code}
use native.Mathlib.Nat.{pow-succ'}
use mathlib.Core.List.{foldl, foldl-append}
use paystream.Base.{
  ℕ, zero, suc, ◌+◌, ◌-◌, ◌*◌, ◌/◌, ◌%◌, ◌^◌, ◌≤◌, ◌<◌, ◌≡◌, refl, sym, ap, ◌∙◌, String, List, [],
  ◌∷◌, ◌++◌, Bool, true, false, ◌&&◌, ◌==◌, ltb, length, length-append, if◌then◌else◌, Bool-cases,
  inl, inr, arith,
}

abbrev pub Text : Type 0
Text = List ℕ

abbrev pub codes : String → Text
codes String.[] = []
codes (String.◌∷◌ c s) = code c ∷ codes s

-- `str(n)`, with fuel above `n`.
digits : ℕ → ℕ → Text
digits zero n = []
digits (suc f) n =
    let rest = digits f (n / 10) ++ (48 + n % 10) ∷ [] in if ltb n 10 then (48 + n) ∷ [] else rest

unfoldable pub str : ℕ → Text
unfolding digits
str n = digits (suc n) n

abbrev pub text_eq : Text → Text → Bool
text_eq [] [] = true
text_eq [] (c ∷ cs) = false
text_eq (c ∷ cs) [] = false
text_eq (c ∷ cs) (d ∷ ds) = (c == d) && text_eq cs ds

pub text_eq_refl : (t : Text) → text_eq t t ≡ true
text_eq_refl [] = refl
text_eq_refl (c ∷ cs) = rw (text_eq_refl cs) (ground arith)

pub text_eq→eq : (s t : Text) → text_eq s t ≡ true → s ≡ t
text_eq→eq [] [] h = refl
text_eq→eq [] (d ∷ ds) h = cc
text_eq→eq (c ∷ cs) [] h = cc
text_eq→eq (c ∷ cs) (d ∷ ds) h = ground (arith, text_eq→eq cs ds)

-- The number that a numeral stands for.
abbrev read : Text → ℕ
read = foldl (λ v c. v * 10 + (c - 48)) 0

read-digits : (f n : ℕ) → n < f → read (digits f n) ≡ n
unfolding digits
read-digits zero n h = absurd (omega arith)
read-digits (suc f) n h = elim (Bool-cases (ltb n 10)) [
  | inl small ↦ rw small (omega arith)
  | inr large ↦ rw large (
      foldl-append (λ v c. v * 10 + (c - 48)) 0 (digits f (n / 10)) ((48 + n % 10) ∷ [])
      ∙ rw (read-digits f (n / 10) (ground arith)) (omega arith))
]

pub str_injective : (m n : ℕ) → str m ≡ str n → m ≡ n
unfolding str
str_injective m n h =
    sym (read-digits (suc m) m (omega arith)) ∙ ap read h ∙ read-digits (suc n) n (omega arith)

length-digits : (f k n : ℕ) → n < 10 ^ suc k → length (digits f n) ≤ suc k
unfolding digits
length-digits zero k n h = omega arith
length-digits (suc f) zero n h = ground (arith)
length-digits (suc f) (suc k) n h = elim (Bool-cases (ltb n 10)) [
  | inl small ↦ rw small (omega arith)
  | inr large ↦
      let shorter : n / 10 < 10 ^ suc k = omega (arith, pow-succ' 10 (suc k)) in
      rw large (
        omega (
          arith,
          length-digits f k (n / 10) shorter,
          length-append (digits f (n / 10)) ((48 + n % 10) ∷ []),
        ))
]

-- A number below 10 ^ (k + 1) has at most k + 1 digits.
pub length-str : (k n : ℕ) → n < 10 ^ suc k → length (str n) ≤ suc k
unfolding str
length-str k n h = length-digits (suc n) k n h
