-- ===== src/Base/Dict/Sum.antt =====
-- The sum of the values of a map into numbers.
use mathlib.Core.Path.{◌≡◌}
use mathlib.Core.Option.{some}
use mathlib.Core.List.{List, [], ◌∷◌}
use Prim.Native.Nat.{ℕ, ◌+◌, ◌≤◌}
use native.Mathlib.Omega.{arith}
use mcpstead.Base.Tests.{unwrap_or}
use mcpstead.Base.Dict.{Key, get, insert, place, adjust}

module _ {K : Type 0} ⦃e : Key K⦄ where
  abbrev pub sum_values : List (K × ℕ) → ℕ
  sum_values [] = 0
  sum_values ((k, n) ∷ m) = n + sum_values m

  sum_values-place :
      (k : K) (n : ℕ) (m : List (K × ℕ)) → sum_values (place k n m) ≡ sum_values m + n
  unfolding place
  sum_values-place k n [] = omega arith
  sum_values-place k n ((i, w) ∷ m) = ground (arith, sum_values-place k n m)

  sum_values-adjust :
      (k : K) (n v : ℕ) (m : List (K × ℕ))
      → get k m ≡ some v
      → sum_values (adjust k (λ _. n) m) + v ≡ sum_values m + n
  unfolding get adjust
  sum_values-adjust k n v [] h = cc
  sum_values-adjust k n v ((i, w) ∷ m) h = ground (arith, sum_values-adjust k n v m)

  -- a write replaces the old value, or 0, by the new one
  pub sum_values-insert :
      (k : K) (n : ℕ) (m : List (K × ℕ))
      → sum_values (insert k n m) + unwrap_or (get k m) 0 ≡ sum_values m + n
  unfolding insert
  sum_values-insert k n m =
      ground (arith, sum_values-place k n m, sum_values-adjust k n (unwrap_or (get k m) 0) m)

  pub get-le-sum_values : (k : K) (m : List (K × ℕ)) → unwrap_or (get k m) 0 ≤ sum_values m
  unfolding get
  get-le-sum_values k [] = omega arith
  get-le-sum_values k ((i, w) ∷ m) = ground (arith, get-le-sum_values k m)
