-- ===== src/Base/Rounding.antt =====
-- Python's `round`, of a Decimal or a float whose exact value is n / d in units of the last place kept.
use Prim.Native.Nat.{ℕ, ◌+◌, ◌*◌, ◌/◌, ◌%◌}
use paystream.Base.Tests.{ltb}
use paystream.Base.{if◌then◌else◌}

-- n / d to the nearest number, and to the even one in the middle.
unfoldable pub round_half_even : ℕ → ℕ → ℕ
round_half_even n d =
    let q = n / d in
    let r = n % d in if ltb (2 * r) d then q else if ltb d (2 * r) then q + 1 else q + q % 2
