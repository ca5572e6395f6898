-- ===== src/Exposition/Numbers.antt =====
-- src/metrics.rs: the numbers on the metrics page. A number of seconds is one of nanoseconds, so `{:.6}`
-- rounds to the nearest microsecond; a half is rounded up.
use Prim.Native.String.{String, [], ◌∷◌, ◌++◌}
use mcpstead.Base.{ℕ, zero, suc, ◌+◌, ◌/◌, ◌%◌, Char, code, ◌==◌, if◌then◌else◌, unwrap_or}
use mcpstead.Base.Text.{contains, strip_suffix}
use mcpstead.Base.Text.Decimal.{digit, decimal}

-- the last `k` digits of a number, before a text
unfoldable pub padded : ℕ → ℕ → String → String
padded zero n acc = acc
padded (suc k) n acc = padded k (n / 10) (digit (n % 10) ∷ acc)

abbrev pub micros : ℕ → ℕ
micros n = (n + 500) / 1000

-- `{:.6}` of a number of seconds
unfoldable pub six : ℕ → String
unfolding padded decimal
six n = decimal (micros n / 1000000) ++ "." ++ padded 6 (micros n % 1000000) ""

abbrev pub cons_significant : Char → String → String
cons_significant c [] = if code c == 48 then [] else c ∷ []
cons_significant c (d ∷ s) = c ∷ d ∷ s

-- the text without the zeros at its end
unfoldable pub trim_zeros : String → String
trim_zeros [] = []
trim_zeros (c ∷ s) = cons_significant c (trim_zeros s)

-- `format_bucket`; the point stops the loop that drops zeros, so that its first test stays true
unfoldable pub format_bucket : ℕ → String
unfolding six trim_zeros
format_bucket value =
    let text = six value in
    let trimmed = if contains text "." then trim_zeros text else text in
    unwrap_or (strip_suffix trimmed 46) trimmed
