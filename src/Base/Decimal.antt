-- ===== src/Base/Decimal.antt =====
-- Decimal numerals: `str(n)`, `f"{n:02}"` and `int(text)` on digits.
use Prim.Native.Nat.{ℕ, zero, suc, ◌+◌, ◌-◌, ◌*◌, ◌/◌, ◌%◌}
use mathlib.Core.Bool.{true, false}
use mathlib.Core.List.{[], ◌∷◌, ◌++◌}
use social_pilot_ai.Base.Tests.{ltb}
use social_pilot_ai.Base.Lists.{length}
use social_pilot_ai.Base.Strings.{Text}

abbrev pub digit : ℕ → ℕ
digit n = b'0' + n

-- The digits of `n` in front of a text; a numeral has fewer digits than the fuel `decimal` gives.
unfoldable pub digits_onto : ℕ → ℕ → Text → Text
digits_onto zero n t = t
digits_onto (suc fuel) n t = elim (ltb n 10) [
  | true ↦ digit n ∷ t
  | false ↦ digits_onto fuel (n / 10) (digit (n % 10) ∷ t)
]

unfoldable pub decimal : ℕ → Text
unfolding digits_onto
decimal n = digits_onto (suc n) n []

unfoldable pub zeros : ℕ → Text
zeros zero = []
zeros (suc n) = b'0' ∷ zeros n

-- `f"{n:0{width}}"`
unfoldable pub padded : ℕ → ℕ → Text
unfolding decimal zeros
padded width n = zeros (width - length (decimal n)) ++ decimal n

-- `int(text)`, of a text of digits.
unfoldable pub value_from : ℕ → Text → ℕ
value_from acc [] = acc
value_from acc (c ∷ t) = value_from (acc * 10 + (c - b'0')) t
