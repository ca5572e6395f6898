-- ===== src/State/Metrics/Counters.antt =====
-- src/state.rs: what a counter reads after it was advanced, and the sum of a family of counters.
use mcpstead.Base.{
  ℕ, ◌+◌, ◌<◌, ◌≡◌, some, List, arith, if◌then◌else◌, unwrap_or, wrapping_add, wrapping_add_small,
  u64_mod,
}
use mcpstead.Base.Dict.{Key, get}
use mcpstead.Base.Dict.Laws.{get-insert}
use mcpstead.Base.Dict.Sum.{sum_values, sum_values-insert, get-le-sum_values}
use mcpstead.State.Metrics.{add_count}

module _ {K : Type 0} ⦃e : Key K⦄ where
  pub get-add_count :
      (k j : K) (n : ℕ) (m : List (K × ℕ))
      → get j (add_count k n m)
        ≡ (if e.beq k j then some (wrapping_add (unwrap_or (get k m) 0) n) else get j m)
  unfolding add_count
  get-add_count k j n m = get-insert k j _ m

  -- while the sum of the counters stays below 2^64, it grows by what is added to one of them
  pub sum_values-add_count :
      (k : K) (n : ℕ) (m : List (K × ℕ))
      → sum_values m + n < u64_mod
      → sum_values (add_count k n m) ≡ sum_values m + n
  unfolding add_count
  sum_values-add_count k n m h = omega (
    arith,
    sum_values-insert k (wrapping_add (unwrap_or (get k m) 0) n) m,
    get-le-sum_values k m,
    wrapping_add_small (unwrap_or (get k m) 0) n (omega (arith, get-le-sum_values k m)),
  )
