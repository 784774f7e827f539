-- ===== src/Prelude/Atoi.antt =====
-- strconv.Atoi
use Prim.Native.Nat.{ℕ, ◌+◌, ◌-◌, ◌*◌, ◌^◌}
use mathlib.Core.Bool.{Bool, true, false, ◌&&◌}
use mathlib.Core.Option.{Option, none, some}
use mathlib.Core.List.{[], ◌∷◌}
use tradecast.Prelude.Tests.{ltb, leb, ◌==◌, if◌then◌else◌}
use tradecast.Prelude.Int.{ℤ, pos, negsuc}
use tradecast.Prelude.Texts.{Text}

-- the value of decimal digits, from the value of those before
digits_value : ℕ → Text → Option ℕ
digits_value n [] = some n
digits_value n (c ∷ s) =
    let rest = digits_value (n * 10 + (c - b'0')) s in
    if leb b'0' c && leb c b'9' then rest else none

-- at least one digit
unsigned : Text → Option ℕ
unfolding digits_value
unsigned [] = none
unsigned (c ∷ s) = digits_value 0 (c ∷ s)

-- The value, and whether there is no error. A text that is no number reads as 0, and one out of
-- the range of an int64 as the bound of the range.
non_negative : Option ℕ → ℤ × Bool
non_negative none = (pos 0, false)
non_negative (some n) = if ltb n (2 ^ 63) then (pos n, true) else (pos (2 ^ 63 - 1), false)

negated : Option ℕ → ℤ × Bool
negated none = (pos 0, false)
negated (some n) =
    if n == 0
    then (pos 0, true)
    else if leb n (2 ^ 63)
    then (negsuc (n - 1), true)
    else (negsuc (2 ^ 63 - 1), false)

unfoldable pub atoi : Text → ℤ × Bool
unfolding unsigned non_negative negated
atoi [] = (pos 0, false)
atoi (c ∷ s) =
    if c == b'-'
    then negated (unsigned s)
    else if c == b'+'
    then non_negative (unsigned s)
    else non_negative (unsigned (c ∷ s))
