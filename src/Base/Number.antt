-- ===== src/Base/Number.antt =====
-- The numbers that a feature can hold: Python's float, int and Decimal. A finite one is an exact
-- fraction; the comparisons with 0 and 1 are those of IEEE 754, where NaN is neither.
use Prim.Native.Nat.{ℕ, zero, suc, ◌/◌}
use Prim.Native.String.{String}
use mathlib.Core.Bool.{Bool, true, false}
use mathlib.Core.Option.{Option, none, some}
use paystream.Base.Tests.{ltb}
use paystream.Base.Int.{ℤ, pos, negsuc}

pub data Number : Type 0 where
  ratio : ℤ → ℕ → Number  -- `ratio z d` is z / (d + 1)
  infinity : Number
  neg_infinity : Number
  nan : Number

-- `x < 0`
abbrev pub is_negative : Number → Bool
is_negative (ratio (pos n) d) = false
is_negative (ratio (negsuc n) d) = true
is_negative infinity = false
is_negative neg_infinity = true
is_negative nan = false

-- `x > 1`
abbrev pub exceeds_one : Number → Bool
exceeds_one (ratio (pos n) d) = ltb (suc d) n
exceeds_one (ratio (negsuc n) d) = false
exceeds_one infinity = true
exceeds_one neg_infinity = false
exceeds_one nan = false

-- -n
abbrev pub negated : ℕ → ℤ
negated zero = pos 0
negated (suc n) = negsuc n

-- `int(x)`, towards zero; `none` where it raises.
abbrev pub truncate : Number → Option ℤ
truncate (ratio (pos n) d) = some (pos (n / suc d))
truncate (ratio (negsuc n) d) = some (negated (suc n / suc d))
truncate infinity = none
truncate neg_infinity = none
truncate nan = none

-- What a database driver or a JSON decoder hands over in a column.
pub data Value : Type 0 where
  null : Value
  number : Number → Value
  text : String → Value
