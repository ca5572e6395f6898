-- ===== src/Exposition/Family/Observed.antt =====
-- src/metrics.rs and src/state.rs: what the page tells of the values that a histogram has observed.
use mcpstead.Base.{
  ℕ, zero, suc, ◌+◌, ◌≤◌, String, none, some, List, [], ◌∷◌, ◌++◌ as append, ◌≡◌, refl, ap, ◌∙◌,
  map, unwrap_or, get_elem?, length, u64_max, arith,
}
use Prim.Native.String.{◌++◌}
use mcpstead.Base.Text.Decimal.{decimal}
use mcpstead.State.Histogram.Tally.{observe_all, count_le, counts_of, sum_of, observe_all-eq-tally}
use mcpstead.Exposition.Numbers.{six, format_bucket}
use mcpstead.Exposition.Family.{headings, sample, bucket_lines, write_histogram}

-- the line for one bound: how many values are at most the bound
abbrev pub at_most_line : String → List (String × String) → List ℕ → ℕ → String
at_most_line name labels vs bound =
    sample (name ++ "_bucket") labels (some ("le", format_bucket bound))
      (decimal (count_le bound vs))

-- the lines for the values, by counting them
abbrev pub counted_lines : String → String → List (String × String) → List ℕ → List ℕ → List String
counted_lines name help labels vs bounds = append (headings name help "histogram") (
    append (map (at_most_line name labels vs) bounds) (
      sample (name ++ "_bucket") labels (some ("le", "+Inf")) (decimal (length vs))
      ∷ sample (name ++ "_sum") labels none (six (sum_of vs))
      ∷ sample (name ++ "_count") labels none (decimal (length vs))
      ∷ []))

-- the count at an index, 0 where there is none
abbrev at : List ℕ → ℕ → ℕ
at counts index = unwrap_or (get_elem? counts index) 0

bucket_lines-at :
    (name : String) (labels : List (String × String)) (vs counts : List ℕ) (index : ℕ)
    (bounds : List ℕ)
    → ((k : ℕ) → at counts (index + k) ≡ at (counts_of vs bounds) k)
    → bucket_lines name labels counts index bounds ≡ map (at_most_line name labels vs) bounds
unfolding bucket_lines
bucket_lines-at name labels vs counts index [] h = refl
bucket_lines-at name labels vs counts index (bound ∷ bounds) h =
    let first : at counts index ≡ count_le bound vs = ap (at counts) (omega arith) ∙ h 0 in
    let rest : (k : ℕ) → at counts (suc index + k) ≡ at (counts_of vs bounds) k =
      λ k. ap (at counts) (omega arith) ∙ h (suc k) in
    rw (first, bucket_lines-at name labels vs counts (suc index) bounds rest) refl

at-counts_of-last : (vs bounds : List ℕ) → at (counts_of vs bounds) (length bounds) ≡ length vs
at-counts_of-last vs [] = refl
at-counts_of-last vs (bound ∷ bounds) = at-counts_of-last vs bounds

at-counts_of-nil : (bounds : List ℕ) (k : ℕ) → 0 ≡ at (counts_of [] bounds) k
at-counts_of-nil [] zero = refl
at-counts_of-nil [] (suc k) = refl
at-counts_of-nil (bound ∷ bounds) zero = refl
at-counts_of-nil (bound ∷ bounds) (suc k) = at-counts_of-nil bounds k

-- A histogram that has observed at most 2^64 - 1 values is written as: its two headings; for each
-- bound, a line with the number of the values that are at most the bound; a line for the infinite
-- bound with the number of the values; their sum; and their number once more.
pub write_histogram-observe_all :
    (name help : String) (labels : List (String × String)) (vs bounds : List ℕ)
    → length vs ≤ u64_max
    → write_histogram name help labels (observe_all bounds vs) bounds
      ≡ counted_lines name help labels vs bounds
unfolding headings write_histogram observe_all
write_histogram-observe_all name help labels [] bounds h =
    rw (bucket_lines-at name labels [] [] 0 bounds (at-counts_of-nil bounds)) refl
write_histogram-observe_all name help labels (v ∷ vs) bounds h =
    rw
      (
        observe_all-eq-tally bounds v vs (omega arith),
        bucket_lines-at name labels (v ∷ vs) (counts_of (v ∷ vs) bounds) 0 bounds
            (λ k. ap (at (counts_of (v ∷ vs) bounds)) (omega arith)),
        at-counts_of-last (v ∷ vs) bounds,
      )
      refl
