-- ===== src/Prelude/Decimal.antt =====
-- strconv.FormatInt(n, 10)
use Prim.Native.Nat.{ℕ, zero, suc, ◌+◌, ◌/◌, ◌%◌}
use mathlib.Core.List.{[], ◌∷◌, ◌++◌}
use tradecast.Prelude.Tests.{ltb, if◌then◌else◌}
use tradecast.Prelude.Int.{ℤ, pos, negsuc}
use tradecast.Prelude.Texts.{Text}

-- the digits of a number below 10 ^ fuel
unfoldable pub digits : ℕ → ℕ → Text
digits zero n = []
digits (suc fuel) n =
    let high = digits fuel (n / 10) in
    let low = (b'0' + n % 10) ∷ [] in if ltb n 10 then low else high ++ low

-- An int64 has at most 19 digits.
unfoldable pub format_int : ℤ → Text
unfolding digits
format_int (pos n) = digits 20 n
format_int (negsuc n) = b'-' ∷ digits 20 (suc n)
