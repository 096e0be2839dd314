-- ===== src/Seed/Random.antt =====
-- The helpers of scripts/seed_data.py on random numbers. `draws` is any sequence of numbers, and each
-- use of the `random` module takes the next ones, so that every outcome it allows is that of some
-- sequence. The state is how many are taken. Times are seconds since 1970, dates are days.
use paystream.Base.{
  ℕ, suc, ◌+◌, ◌-◌, ◌*◌, ◌%◌, ◌^◌, List, [], ◌∷◌, ◌++◌, Option, none, some, length, get_elem?, ltb,
  if◌then◌else◌,
}
use paystream.Base.Rounding.{round_half_even}
use paystream.Base.Task.{ok, index_error}
use paystream.Base.Action.{Act, pure, raise, ◌>>=◌}
use paystream.Base.Numeral.{Text, codes, str}

abbrev pub base_date : ℕ
base_date = 19723 * 86400

abbrev pub date_range_days : ℕ
date_range_days = 365

abbrev pub or_index_error : {A : Type 0} → Option A → Act ℕ A
or_index_error none = raise index_error
or_index_error (some a) = pure a

-- `bisect` in the cumulative weights, up to the last index but one; `x` is `random()` times the total
-- of the weights, in units of 2 ^ -53.
abbrev pub pick : {A : Type 0} → ℕ → ℕ → A → List (A × ℕ) → A
pick x bound a [] = a
pick x bound a ((b, w) ∷ rest) =
    let later = pick x (bound + w) b rest in if ltb x (bound * 2 ^ 53) then a else later

abbrev pub total : {A : Type 0} → List (A × ℕ) → ℕ
total [] = 0
total ((a, w) ∷ rest) = w + total rest

module _ (draws : ℕ → ℕ) where
  -- One of the numbers below `n`.
  unfoldable pub below : ℕ → Act ℕ ℕ
  below n taken = (ok (draws taken % n), suc taken)

  -- `random.randint`
  unfoldable pub randint : ℕ → ℕ → Act ℕ ℕ
  unfolding below
  randint lo hi = do i ← below (hi - lo + 1); pure (lo + i)

  -- `random.choice`
  unfoldable pub choice : {A : Type 0} → List A → Act ℕ A
  unfolding below
  choice xs = do i ← below (length xs); or_index_error (get_elem? xs i)

  -- `random_ts()`
  unfoldable pub random_ts : Act ℕ ℕ
  unfolding randint
  random_ts = do i ← randint 0 (date_range_days * 86400); pure (base_date + i)

  -- `random_dec`, its bounds and its result in units of 10 ^ -places. The decimal that `str` prints of
  -- the float has `extra` places more.
  unfoldable pub random_dec : ℕ → ℕ → Act ℕ ℕ
  unfolding below round_half_even
  random_dec lo hi = do
    extra ← below 17
    i ← below ((hi - lo) * 10 ^ extra + 1)
    pure (round_half_even (lo * 10 ^ extra + i) (10 ^ extra))

  -- `wc`, the weights in hundredths.
  unfoldable pub wc : {A : Type 0} → List (A × ℕ) → Act ℕ A
  unfolding below
  wc [] = raise index_error
  wc ((a, w) ∷ options) = do r ← below (2 ^ 53); pure (pick (r * (w + total options)) w a options)

  unfoldable pub random_phone : Act ℕ Text
  unfolding randint str
  random_phone = do n ← randint 10000000 99999999; pure (codes "+9665" ++ str n)

  unfoldable pub random_national_id : Act ℕ Text
  unfolding randint str
  random_national_id = do n ← randint 1000000000 9999999999; pure (str n)
