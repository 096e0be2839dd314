-- ===== src/Spark/Columns.antt =====
-- The functions of Spark that spark/jobs/credit_feature_engineer.py uses on numbers and groups.
use paystream.Base.{
  ℕ, ◌+◌, ◌-◌, ◌*◌, ◌/◌, ◌%◌, min, not, List, [], ◌∷◌, length, filter, ◌==◌, ◌^◌, Option, none,
  some, ltb, if◌then◌else◌,
}
use paystream.Base.Int.{ℤ, pos, negsuc}
use paystream.Base.Number.{Number, ratio}

-- The short with the low 16 bits of `n`.
abbrev pub wrap_short : ℕ → ℤ
wrap_short n = let r = n % 65536 in if ltb r 32768 then pos r else negsuc (65535 - r)

-- `cast(ShortType())`
unfoldable pub to_short : ℤ → ℤ
to_short (pos n) = wrap_short n
to_short (negsuc n) = wrap_short (65535 - n % 65536)

-- `coalesce(n / d, lit(0.0))` of two counts.
abbrev pub rate : ℕ → ℕ → Number
rate n d = if d == 0 then ratio (pos 0) 0 else ratio (pos n) (d - 1)

abbrev pub sum : List ℕ → ℕ
sum [] = 0
sum (n ∷ ns) = n + sum ns

-- a / b rounded half up, for b > 0; all values here are positive.
abbrev pub round_div : ℕ → ℕ → ℕ
round_div a b = (2 * a + b) / (2 * b)

-- `coalesce(avg(amount), 0.00)` to two decimals: avg has four more.
unfoldable pub average : List ℕ → ℕ
average [] = 0
average (a ∷ as_) = round_div (round_div (sum (a ∷ as_) * 10000) (length (a ∷ as_))) 10000

-- The cast to DecimalType(10, 2), which is NULL from 10 ^ 8 on.
abbrev pub to_decimal_10_2 : ℕ → Option ℕ
to_decimal_10_2 cents = if ltb cents (10 ^ 10) then some cents else none

-- The keys of a `groupBy`, and the values that `countDistinct` counts.
unfoldable pub distinct : List ℕ → List ℕ
distinct [] = []
distinct (n ∷ ns) = n ∷ filter (λ m. not (m == n)) (distinct ns)

-- `min`
abbrev pub least : ℕ → List ℕ → ℕ
least n [] = n
least n (m ∷ ms) = least (min n m) ms
