-- ===== src/Base/Text/Decimal.antt =====
-- A number in decimal, as `{}` formats it.
use Prim.Native.Char.{Char}
use Prim.Native.String.{String, [], ◌∷◌}
use Prim.Native.Nat.{ℕ, zero, suc, ◌/◌, ◌%◌}
use mathlib.Core.Bool.{true, false}
use mcpstead.Base.Tests.{◌==◌}

-- the character at a place, where the text has one
abbrev pub pick : String → ℕ → Char
pick [] n = "9"
pick (c ∷ s) zero = c
pick (c ∷ s) (suc n) = pick s n

abbrev pub digit : ℕ → Char
digit d = pick "0123456789" d

-- the digits of `n` before a text; the fuel bounds their number
unfoldable pub digits_before : ℕ → ℕ → String → String
digits_before zero n acc = acc
digits_before (suc fuel) n acc = elim (n / 10 == 0) [
  | true ↦ digit (n % 10) ∷ acc
  | false ↦ digits_before fuel (n / 10) (digit (n % 10) ∷ acc)
]

-- a number has at most as many digits as one more than its size
unfoldable pub decimal : ℕ → String
unfolding digits_before
decimal n = digits_before (suc n) n []
