-- ===== src/Common/Atoi.antt =====
-- Decimal texts: the digits of `strconv.Atoi` and its range.
use Prim.Native.Nat.{ℕ, ◌+◌, ◌-◌, ◌*◌}
use mathlib.Core.Bool.{Bool, ◌&&◌}
use mathlib.Core.Option.{Option, none, some}
use mathlib.Core.List.{[], ◌∷◌}
use route_prism.Common.Tests.{leb, ltb, if◌then◌else◌}
use route_prism.Common.Strings.{Str, is_empty}

abbrev pub is_digit : ℕ → Bool
is_digit c = leb b'0' c && leb c b'9'

-- The digits of `strconv.Atoi`; `none` is its syntax error.
unfoldable pub digits_value : ℕ → Str → Option ℕ
digits_value acc [] = some acc
digits_value acc (c ∷ s) =
    let rest = digits_value (acc * 10 + (c - b'0')) s in if is_digit c then rest else none

-- An `int` has 64 bits.
abbrev pub in_int_range : Option ℕ → Option ℕ
in_int_range none = none
in_int_range (some n) = if ltb n 9223372036854775808 then some n else none

-- `strconv.Atoi` on a text with no sign.
unfoldable pub atoi_unsigned : Str → Option ℕ
unfolding digits_value
atoi_unsigned s = if is_empty s then none else in_int_range (digits_value 0 s)
